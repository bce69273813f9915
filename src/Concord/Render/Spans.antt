-- ===== src/Concord/Render/Spans.antt =====
-- What `replaceSpan` (packages/concord-core/src/pipeline.ts) changes, and when it throws.
use doc_eng_demo.Prelude.{
  ℕ, zero, suc, ◌+◌, ◌≤◌, ◌≡◌, ◌≢◌, refl, ap, ◌∙◌, true, none, some, [], ◌∷◌, ◌++◌, length,
  length-append, append_assoc, append-nil, has_prefix, has_prefix_sound, Bool-cases, Option-cases,
  inl, inr, arith,
}
use doc_eng_demo.Contracts.Records.{Text}
use doc_eng_demo.Concord.Types.{Span}
use doc_eng_demo.Concord.Render.{index_of, take, drop, replace_span}

-- A place at which the needle stands.
pub record IsAt (needle content : Text) (i : ℕ) : Type 0 where
  pub front : Text
  pub back : Text
  pub split : content ≡ front ++ (needle ++ back)
  pub place : length front ≡ i

pub index_of-IsAt : (needle s : Text) (i : ℕ) → index_of needle s ≡ some i → IsAt needle s i
unfolding index_of
index_of-IsAt needle [] i h = elim (Bool-cases (has_prefix needle [])) [
  | inl e ↦ found e (rw e at h)
  | inr e ↦ absurd (none_some (rw e at h))
]
  where
    none_some : none ≡ some i → ⊥
    none_some k = cc

    found : has_prefix needle [] ≡ true → some 0 ≡ some i → IsAt needle [] i
    found e k =
        let (rest, q) = has_prefix_sound needle [] e in
        record { front = []; back = rest; split = q; place = ground arith }
index_of-IsAt needle (c ∷ cs) i h = elim (Bool-cases (has_prefix needle (c ∷ cs))) [
  | inl e ↦ found e (rw e at h)
  | inr e ↦ elim (Option-cases (index_of needle cs)) [
    | inl q ↦ absurd (none_some (rw (e, q) at h))
    | inr (j, q) ↦ later j (index_of-IsAt needle cs j q) (rw (e, q) at h)
  ]
]
  where
    none_some : none ≡ some i → ⊥
    none_some k = cc

    found : has_prefix needle (c ∷ cs) ≡ true → some 0 ≡ some i → IsAt needle (c ∷ cs) i
    found e k =
        let (rest, q) = has_prefix_sound needle (c ∷ cs) e in
        record { front = []; back = rest; split = q; place = ground arith }

    later : (j : ℕ) → IsAt needle cs j → some (suc j) ≡ some i → IsAt needle (c ∷ cs) i
    later j at_j k = record {
      front = c ∷ at_j.front;
      back = at_j.back;
      split = ap (λ t. c ∷ t) at_j.split;
      place = ground (arith, at_j.place);
    }

suc_plus : (m n : ℕ) → suc m + n ≡ suc (m + n)
suc_plus m n = omega arith

zero_plus : (n : ℕ) → 0 + n ≡ n
zero_plus n = omega arith

pub take-append : (f x : Text) (n : ℕ) → take (length f + n) (f ++ x) ≡ f ++ take n x
take-append [] x n = ap (λ m. take m x) (zero_plus n)
take-append (c ∷ f) x n =
    ap (λ m. take m (c ∷ (f ++ x))) (suc_plus (length f) n) ∙ ap (λ t. c ∷ t) (take-append f x n)

pub drop-append : (f x : Text) (n : ℕ) → drop (length f + n) (f ++ x) ≡ drop n x
drop-append [] x n = ap (λ m. drop m x) (zero_plus n)
drop-append (c ∷ f) x n =
    ap (λ m. drop m (c ∷ (f ++ x))) (suc_plus (length f) n) ∙ drop-append f x n

take-within : (n : ℕ) (x y : Text) → n ≤ length x → take n (x ++ y) ≡ take n x
take-within zero x y h = refl
take-within (suc n) [] y h = ground arith
take-within (suc n) (c ∷ x) y h = ap (λ t. c ∷ t) (take-within n x y (ground arith))

pub drop-within : (n : ℕ) (x y : Text) → n ≤ length x → drop n (x ++ y) ≡ drop n x ++ y
drop-within zero x y h = refl
drop-within (suc n) [] y h = ground arith
drop-within (suc n) (c ∷ x) y h = drop-within n x y (ground arith)

-- Where the body stands in the file, and the file with only the body's span replaced.
pub record IsReplaced (content body : Text) (s : Span) (replacement after : Text) : Type 0 where
  pub front : Text
  pub back : Text
  pub before : content ≡ front ++ (body ++ back)
  pub result : after ≡ front ++ (take s.start body ++ (replacement ++ (drop s.end body ++ back)))

cut_at :
    (front body back : Text) (s : Span) (replacement : Text)
    → s.start ≤ length body
    → s.end ≤ length body
    → take (length front + s.start) (front ++ (body ++ back))
        ++ (replacement ++ drop (length front + s.end) (front ++ (body ++ back)))
      ≡ front ++ (take s.start body ++ (replacement ++ (drop s.end body ++ back)))
cut_at front body back s replacement h k =
    rw
      (
        take-append front (body ++ back) s.start,
        drop-append front (body ++ back) s.end,
        take-within s.start body back h,
        drop-within s.end body back k,
      )
      (append_assoc front (take s.start body) (replacement ++ (drop s.end body ++ back)))

IsReplaced-at :
    (content body : Text) (s : Span) (replacement : Text) (i : ℕ)
    → IsAt body content i
    → s.start ≤ length body
    → s.end ≤ length body
    → IsReplaced content body s replacement
        (take (i + s.start) content ++ (replacement ++ drop (i + s.end) content))
IsReplaced-at content body s replacement i at_i h k = record {
  front = at_i.front;
  back = at_i.back;
  before = at_i.split;
  result = rw (at_i.split, ← at_i.place) (cut_at at_i.front body at_i.back s replacement h k);
}

-- Where the span lies in the body, a replacement that does not throw finds the body in the file and
-- changes its span alone: all that stands before the body, around the span and after the body stays.
pub replace_span-IsReplaced :
    (content body : Text) (s : Span) (replacement after : Text)
    → replace_span content body s replacement ≡ some after
    → s.start ≤ length body
    → s.end ≤ length body
    → IsReplaced content body s replacement after
unfolding replace_span
replace_span-IsReplaced content body s replacement after h j k =
    elim (Option-cases (index_of body content)) [
      | inl e ↦ absurd (none_some (rw (e, replace_span) at h))
      | inr (i, e) ↦
          found (rw (e, replace_span) at h)
            (IsReplaced-at content body s replacement i (index_of-IsAt body content i e) j k)
    ]
  where
    none_some : none ≡ some after → ⊥
    none_some q = cc

    found :
        {t : Text}
        → some t ≡ some after
        → IsReplaced content body s replacement t
        → IsReplaced content body s replacement after
    found {t} q r = let same : t ≡ after = cc in rw same at r

same_length :
    (front body back : Text)
    → length (front ++ (body ++ back)) ≤ length body
    → front ++ (body ++ back) ≡ body
same_length [] body [] h = append-nil body
same_length [] body (c ∷ back) h = absurd (longer (rw (length-append body (c ∷ back)) at h))
  where
    longer : length body + length (c ∷ back) ≤ length body → ⊥
    longer q = ground arith
same_length (c ∷ front) body back h =
    absurd (longer (rw (length-append front (body ++ back), length-append body back) at h))
  where
    longer : suc (length front + (length body + length back)) ≤ length body → ⊥
    longer q = ground arith

-- In a unit that is its whole file, a replacement that has changed the text and has not made it longer
-- makes every further replacement in that unit throw, since the body is looked for in the new text.
pub replace_span-repeated :
    (body : Text) (s : Span) (replacement after : Text)
    → replace_span body body s replacement ≡ some after
    → length after ≤ length body
    → after ≢ body
    → (next : Span) (rendered : Text) → replace_span after body next rendered ≡ none
unfolding replace_span
replace_span-repeated body s replacement after h short changed next rendered =
    elim (Option-cases (index_of body after)) [
      | inl e ↦ rw (e, replace_span) refl
      | inr (i, e) ↦ absurd (missing (index_of-IsAt body after i e))
    ]
  where
    missing : {i : ℕ} → IsAt body after i → ⊥
    missing a = changed (a.split ∙ same_length a.front body a.back (rw a.split at short))
