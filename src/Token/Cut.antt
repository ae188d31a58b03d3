-- ===== src/Token/Cut.antt =====
-- src/tokenizer/bpe.cpp: the literals in a text, and what `match_special` finds.
use libmlxforge.Common.{
  ℕ, ◌<◌, true, false, List, [], ◌∷◌, ◌++◌, Option, none, some, Bytes, length, drop, ◌≡◌, refl, sym,
  ◌∙◌, ap, subst, arith, Bool-cases, inl, inr, ◌⊎◌, ==_iff, append_assoc,
}
use libmlxforge.Token.Bpe.{BpeTokenizer, mem, starts_with, special_at, match_special, head_or}

-- `lit` with `id` stands in the list.
abbrev pub IsIn : Bytes → ℕ → List (Bytes × ℕ) → Type 0
IsIn lit id [] = ⊥
IsIn lit id ((l, i) ∷ m) = ((lit ≡ l) × (id ≡ i)) ⊎ IsIn lit id m

-- The text begins with `lit`.
abbrev pub Begins : Bytes → Bytes → Type 0
Begins lit text = (rest : Bytes) × (lit ++ rest ≡ text)

abbrev pub NoneHere : List (Bytes × ℕ) → Bytes → Type 0
NoneHere m text = (lit : Bytes) (id : ℕ) → IsIn lit id m → ¬ Begins lit text

-- No literal begins in `plain`, with `behind` behind it.
abbrev pub NoneIn : List (Bytes × ℕ) → Bytes → Bytes → Type 0
NoneIn m [] behind = Unit
NoneIn m (c ∷ plain) behind = NoneHere m (c ∷ (plain ++ behind)) × NoneIn m plain behind

-- `lit` with `id` is the first of the list that the text can begin with.
abbrev pub IsFirst : Bytes → Bytes → ℕ → List (Bytes × ℕ) → Type 0
IsFirst text lit id [] = ⊥
IsFirst text lit id ((l, i) ∷ m) =
    ((lit ≡ l) × (id ≡ i)) ⊎ ((¬ Begins l text) × IsFirst text lit id m)

-- No literal is empty, and the first byte of each is known.
pub record IsScannable (t : BpeTokenizer) : Type 0 where
  pub nonempty : (id : ℕ) → ¬ IsIn [] id t.special_tokens
  pub first :
      (c : ℕ) (lit : Bytes) (id : ℕ)
      → IsIn (c ∷ lit) id t.special_tokens
      → mem c t.special_first_bytes ≡ true

pub IsFirst-IsIn :
    (text lit : Bytes) (id : ℕ) (m : List (Bytes × ℕ)) → IsFirst text lit id m → IsIn lit id m
IsFirst-IsIn text lit id [] f = f
IsFirst-IsIn text lit id ((l, i) ∷ m) (inl f) = inl f
IsFirst-IsIn text lit id ((l, i) ∷ m) (inr (n, f)) = inr (IsFirst-IsIn text lit id m f)

starts_with-append : (lit rest : Bytes) → starts_with lit (lit ++ rest) ≡ true
starts_with-append [] rest = refl
starts_with-append (x ∷ lit) rest = ground (arith, starts_with-append lit rest)

not-Begins : (lit text : Bytes) → starts_with lit text ≡ false → ¬ Begins lit text
not-Begins lit text e (rest, w) =
    true_not_false (sym (starts_with-append lit rest) ∙ ap (starts_with lit) w ∙ e)
  where
    true_not_false : true ≡ false → ⊥
    true_not_false f = ground (arith, f)

starts_with_lem :
    (lit text : Bytes) → starts_with lit text ≡ true → lit ++ drop (length lit) text ≡ text
starts_with_lem [] text e = refl
starts_with_lem (x ∷ lit) [] e = ground arith
starts_with_lem (x ∷ lit) (c ∷ text) e =
    ap (λ z. z ∷ (lit ++ drop (length lit) text)) ((==_iff x c).0 (ground (arith, e)))
    ∙ ap (◌∷◌ c) (starts_with_lem lit text (ground (arith, e)))

pair_injective :
    (a b : Bytes) (i j : ℕ)
    → ◌≡◌ {A = Option (Bytes × ℕ)} (some (a, i)) (some (b, j))
    → (a ≡ b) × (i ≡ j)
pair_injective a b i j e = (cc, cc)

special_at_hit :
    (l text : Bytes) (i : ℕ) (m : List (Bytes × ℕ))
    → starts_with l text ≡ true
    → special_at ((l, i) ∷ m) text ≡ some (l, i)
unfolding special_at
special_at_hit l text i m h = rw (special_at, h) refl

special_at_miss :
    (l text : Bytes) (i : ℕ) (m : List (Bytes × ℕ))
    → starts_with l text ≡ false
    → special_at ((l, i) ∷ m) text ≡ special_at m text
unfolding special_at
special_at_miss l text i m h = rw (special_at, h) refl

special_at_lem :
    (m : List (Bytes × ℕ)) (text lit : Bytes) (id : ℕ)
    → special_at m text ≡ some (lit, id)
    → IsFirst text lit id m × (lit ++ drop (length lit) text ≡ text)
unfolding special_at
special_at_lem [] text lit id e = absurd (ground (arith, e))
special_at_lem ((l, i) ∷ m) text lit id e = elim (Bool-cases (starts_with l text)) [
  | inl h ↦
      let (p, q) = pair_injective l lit i id (sym (special_at_hit l text i m h) ∙ e) in
      (
        inl (sym p, sym q),
        subst (λ z. z ++ drop (length z) text ≡ text) p (starts_with_lem l text h),
      )
  | inr h ↦
      let (p, q) = special_at_lem m text lit id (sym (special_at_miss l text i m h) ∙ e) in
      (inr (not-Begins l text h, p), q)
]

entry_not_none : (e : Bytes × ℕ) → some e ≡ none → ⊥
entry_not_none e f = cc

special_at-none : (m : List (Bytes × ℕ)) (text : Bytes) → special_at m text ≡ none → NoneHere m text
unfolding special_at
special_at-none [] text e lit id i = absurd i
special_at-none ((l, k) ∷ m) text e lit id i = elim (Bool-cases (starts_with l text)) [
  | inl h ↦ absurd (entry_not_none (l, k) (sym (special_at_hit l text k m h) ∙ e))
  | inr h ↦ elim i [
    | inl (p, q) ↦ subst (λ z. ¬ Begins z text) (sym p) (not-Begins l text h)
    | inr j ↦ special_at-none m text (sym (special_at_miss l text k m h) ∙ e) lit id j
  ]
]

pub match_special_lem :
    (t : BpeTokenizer) (c : ℕ) (text lit : Bytes) (id : ℕ)
    → match_special t (c ∷ text) ≡ some (lit, id)
    → IsFirst (c ∷ text) lit id t.special_tokens × (lit ++ drop (length lit) (c ∷ text) ≡ c ∷ text)
unfolding match_special
match_special_lem t c text lit id e = elim (Bool-cases (mem c t.special_first_bytes)) [
  | inl h ↦ special_at_lem t.special_tokens (c ∷ text) lit id (ground (arith, h, e))
  | inr h ↦ absurd (ground (arith, h, e))
]

unknown_first :
    (t : BpeTokenizer) (c : ℕ) (text lit : Bytes) (id : ℕ)
    → IsScannable t
    → mem c t.special_first_bytes ≡ false
    → IsIn lit id t.special_tokens
    → ¬ Begins lit (c ∷ text)
unknown_first t c text [] id n h i b = n.nonempty id i
unknown_first t c text (x ∷ lit) id n h i (rest, w) =
    let same : x ≡ c = ap (head_or 0) w in
    ground (arith, h, subst (λ z. mem z t.special_first_bytes ≡ true) same (n.first x lit id i))

pub match_special-none :
    (t : BpeTokenizer) (c : ℕ) (text : Bytes)
    → IsScannable t
    → match_special t (c ∷ text) ≡ none
    → NoneHere t.special_tokens (c ∷ text)
unfolding match_special
match_special-none t c text n e = elim (Bool-cases (mem c t.special_first_bytes)) [
  | inl h ↦ special_at-none t.special_tokens (c ∷ text) (ground (arith, h, e))
  | inr h ↦ λ lit id i. unknown_first t c text lit id n h i
]

pub nonempty_length :
    (lit : Bytes) (id : ℕ) (t : BpeTokenizer)
    → IsScannable t
    → IsIn lit id t.special_tokens
    → 0 < length lit
nonempty_length [] id t n i = absurd (n.nonempty id i)
nonempty_length (x ∷ lit) id t n i = omega arith

pub NoneIn-snoc :
    (m : List (Bytes × ℕ)) (p : Bytes) (c : ℕ) (text : Bytes)
    → NoneIn m p (c ∷ text)
    → NoneHere m (c ∷ text)
    → NoneIn m (p ++ (c ∷ [])) text
NoneIn-snoc m [] c text a h = (h, tt)
NoneIn-snoc m (x ∷ p) c text a h = (
  subst (λ z. NoneHere m (x ∷ z)) (sym (append_assoc p (c ∷ []) text)) a.0,
  NoneIn-snoc m p c text a.1 h,
)
