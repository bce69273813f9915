-- ===== src/Api/Replace.antt =====
-- `text.replace(search, replacement)` for two texts, as packages/concord-api/src/run.ts writes the
-- body of a unit into its file. JavaScript reads `$` in the replacement as the start of a pattern.
use doc_eng_demo.Prelude.{
  ℕ, ◌+◌, ◌≡◌, refl, ap, ◌∙◌, Bool, true, false, Option, none, some, [], ◌∷◌, ◌++◌, length, any,
  eqb, arith, if◌then◌else◌,
}
use doc_eng_demo.Contracts.Records.{Text}
use doc_eng_demo.Concord.Render.{index_of, take, drop}
use doc_eng_demo.Concord.Render.Spans.{index_of-IsAt, drop-append}

-- `$` and the characters that have a meaning behind it.
abbrev pub dollar : ℕ
dollar = 36

abbrev ampersand : ℕ
ampersand = 38

abbrev backtick : ℕ
backtick = 96

abbrev apostrophe : ℕ
apostrophe = 39

abbrev pub is_dollar : ℕ → Bool
is_dollar c = eqb c dollar

-- The replacement, for a match with the given text before, in and after it. The flag says that a
-- `$` stands before. There are no captures, so that `$1` and `$<` stand for themselves.
unfoldable pub expand : Text → Text → Text → Bool → Text → Text
expand pre found post false [] = []
expand pre found post true [] = dollar ∷ []
expand pre found post false (c ∷ cs) =
    let rest = expand pre found post (is_dollar c) cs in if is_dollar c then rest else c ∷ rest
expand pre found post true (c ∷ cs) =
    let rest = expand pre found post false cs in
    if is_dollar c
    then dollar ∷ rest
    else if eqb c ampersand
    then found ++ rest
    else if eqb c backtick
    then pre ++ rest
    else if eqb c apostrophe
    then post ++ rest
    else dollar ∷ c ∷ rest

unfoldable pub replace_at : Text → Text → Text → Option ℕ → Text
replace_at file body new none = file
replace_at file body new (some n) =
    take n file
    ++ (expand (take n file) body (drop (n + length body) file) false new
        ++ drop (n + length body) file)

unfoldable pub replace_first : Text → Text → Text → Text
replace_first file body new = replace_at file body new (index_of body file)

pub expand-plain :
    (pre found post cs : Text) → any is_dollar cs ≡ false → expand pre found post false cs ≡ cs
unfolding expand
expand-plain pre found post [] h = refl
expand-plain pre found post (c ∷ cs) h = ground (arith, expand-plain pre found post cs)

take-front : (f x : Text) → take (length f) (f ++ x) ≡ f
take-front [] x = refl
take-front (c ∷ f) x = ap (λ t. c ∷ t) (take-front f x)

drop-front : (f b x : Text) → drop (length f + length b) (f ++ (b ++ x)) ≡ x
drop-front f b x = drop-append f (b ++ x) (length b) ∙ drop-one b x
  where
    drop-one : (b x : Text) → drop (length b) (b ++ x) ≡ x
    drop-one [] x = refl
    drop-one (c ∷ b) x = drop-one b x

-- Where the text is found, it alone is replaced, by the replacement as JavaScript expands it.
pub replace_first-found :
    (file body new : Text) (n : ℕ)
    → index_of body file ≡ some n
    → (front : Text) × (back : Text) × (file ≡ front ++ (body ++ back))
      × (replace_first file body new ≡ front ++ (expand front body back false new ++ back))
unfolding replace_first replace_at
replace_first-found file body new n h =
    let at_n = index_of-IsAt body file n h in
    (
      at_n.front,
      at_n.back,
      at_n.split,
      rw (h, at_n.split)
          (rw (← at_n.place) (
            rw (take-front at_n.front (body ++ at_n.back), drop-front at_n.front body at_n.back)
              refl)),
    )

pub expand-dollars :
    (pre found post p q : Text)
    → any is_dollar p ≡ false
    → any is_dollar q ≡ false
    → expand pre found post false (p ++ dollar ∷ (dollar ∷ q)) ≡ p ++ dollar ∷ q
unfolding expand
expand-dollars pre found post [] q h k = rw (expand-plain pre found post q k) refl
expand-dollars pre found post (c ∷ p) q h k = ground (arith, expand-dollars pre found post p q)
