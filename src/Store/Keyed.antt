-- ===== src/Store/Keyed.antt =====
-- Lists of entries under their keys, as the index of src/cache/block_store.cpp is one here.
use libmlxforge.Common.{
  ℕ, suc, ◌+◌, ◌≤◌, ◌<◌, ◌≢◌, true, ap, ◌∙◌, if◌then◌else◌, List, [], ◌∷◌, none, some, length, ltb,
  ◌==◌, ◌≡◌, refl, sym, arith, inl, inr, Bool-cases, ==_iff,
}
use libmlxforge.Pool.Blocks.{find, erase}
use libmlxforge.Store.Index.{StoreEntry, pick}

abbrev pub sum : List (ℕ × StoreEntry) → ℕ
sum [] = 0
sum ((h, e) ∷ l) = e.size + sum l

abbrev pub Distinct : {B : Type 0} → List (ℕ × B) → Type 0
Distinct [] = Unit
Distinct ((h, b) ∷ l) = (find h l ≡ none) × Distinct l

pub find-erase-none :
    {B : Type 0} (h j : ℕ) (l : List (ℕ × B)) → find j l ≡ none → find j (erase h l) ≡ none
unfolding find erase
find-erase-none h j [] e = refl
find-erase-none h j ((i, b) ∷ l) e = ground (arith, find-erase-none h j l)

pub find-erase_self : {B : Type 0} (h : ℕ) (l : List (ℕ × B)) → find h (erase h l) ≡ none
unfolding find erase
find-erase_self h [] = refl
find-erase_self h ((i, b) ∷ l) = ground (arith, find-erase_self h l)

pub Distinct-erase : {B : Type 0} (h : ℕ) (l : List (ℕ × B)) → Distinct l → Distinct (erase h l)
unfolding erase
Distinct-erase h [] d = tt
Distinct-erase h ((i, b) ∷ l) d = ground (arith, Distinct-erase h l d.1, find-erase-none h i l d.0)

pub sum-erase_absent :
    (h : ℕ) (l : List (ℕ × StoreEntry)) → find h l ≡ none → sum (erase h l) ≡ sum l
unfolding find erase
sum-erase_absent h [] e = refl
sum-erase_absent h ((i, b) ∷ l) e = ground (arith, sum-erase_absent h l)

pub sum-erase :
    (h : ℕ) (l : List (ℕ × StoreEntry)) (e : StoreEntry)
    → Distinct l
    → find h l ≡ some e
    → e.size + sum (erase h l) ≡ sum l
unfolding find erase
sum-erase h [] e d f = cc
sum-erase h ((i, b) ∷ l) e d f = elim (Bool-cases (i == h)) [
  | inl t ↦
      let here : i ≡ h = (==_iff i h).0 t in
      ground (arith, sum-erase_absent h l (rw (sym here) d.0))
  | inr t ↦ ground (arith, sum-erase h l e d.1)
]

length-erase : {B : Type 0} (h : ℕ) (l : List (ℕ × B)) → length (erase h l) ≤ length l
unfolding erase
length-erase h [] = omega arith
length-erase h ((i, b) ∷ l) = ground (arith, length-erase h l)

pub length-erase_found :
    {B : Type 0} (h : ℕ) (l : List (ℕ × B)) (b : B)
    → find h l ≡ some b
    → length (erase h l) < length l
unfolding find erase
length-erase_found h [] b e = cc
length-erase_found h ((i, c) ∷ l) b e = ground (arith, length-erase_found h l b, length-erase h l)

-- Every entry of `l` is what `m` finds under its hash.
abbrev pub FoundIn : List (ℕ × StoreEntry) → List (ℕ × StoreEntry) → Type 0
FoundIn m [] = Unit
FoundIn m (e ∷ l) = (find e.0 m ≡ some e.1) × FoundIn m l

FoundIn-weaken :
    (x : ℕ × StoreEntry) (m l : List (ℕ × StoreEntry))
    → find x.0 m ≡ none
    → FoundIn m l
    → FoundIn (x ∷ m) l
unfolding find
FoundIn-weaken x m [] n f = tt
FoundIn-weaken x m (e ∷ l) n f = (ground (arith, n, f.0), FoundIn-weaken x m l n f.1)

pub FoundIn-self : (l : List (ℕ × StoreEntry)) → Distinct l → FoundIn l l
unfolding find
FoundIn-self [] d = tt
FoundIn-self (x ∷ l) d = (ground arith, FoundIn-weaken x l l d.0 (FoundIn-self l d.1))

pub find-pick :
    (v : ℕ × StoreEntry) (l m : List (ℕ × StoreEntry))
    → find v.0 m ≡ some v.1
    → FoundIn m l
    → find (pick v l).0 m ≡ some (pick v l).1
unfolding pick
find-pick v [] m e f = e
find-pick v (x ∷ l) m e f = elim (Bool-cases (ltb x.1.stamp v.1.stamp)) [
  | inl t ↦ rw (pick, t) (find-pick x l m f.0 f.1)
  | inr t ↦ rw (pick, t) (find-pick v l m e f.1)
]

-- No entry has a later stamp.
abbrev pub Until : ℕ → List (ℕ × StoreEntry) → Type 0
Until n [] = Unit
Until n ((h, e) ∷ l) = (e.stamp ≤ n) × Until n l

pub Until-later : (n m : ℕ) (l : List (ℕ × StoreEntry)) → n ≤ m → Until n l → Until m l
Until-later n m [] p u = tt
Until-later n m ((h, e) ∷ l) p u = (omega (arith, p, u.0), Until-later n m l p u.1)

pub Until-erase : (n h : ℕ) (l : List (ℕ × StoreEntry)) → Until n l → Until n (erase h l)
unfolding erase
Until-erase n h [] u = tt
Until-erase n h ((i, e) ∷ l) u = elim (Bool-cases (i == h)) [
  | inl t ↦ rw (erase, t) (Until-erase n h l u.1)
  | inr t ↦ rw (Until, erase, t) (u.0, Until-erase n h l u.1)
]

-- What is found after an entry was erased was found before.
pub find-erase_before :
    {B : Type 0} (h j : ℕ) (b : B) (l : List (ℕ × B))
    → find j (erase h l) ≡ some b
    → find j l ≡ some b
unfolding find erase
find-erase_before h j b [] e = e
find-erase_before h j b ((i, c) ∷ l) e =
    ground (arith, e, find-erase_before h j b l, find-erase_self h l)

pub find-erase_other :
    {B : Type 0} (h j : ℕ) (l : List (ℕ × B)) → h ≢ j → find j (erase h l) ≡ find j l
unfolding find erase
find-erase_other h j [] n = refl
find-erase_other h j ((i, c) ∷ l) n = ground (arith, n, find-erase_other h j l n)

-- The scan goes past an entry that is later than all others, and finds one of those.
pub pick_older :
    (h : ℕ) (e : StoreEntry) (v : ℕ × StoreEntry) (l : List (ℕ × StoreEntry)) (n : ℕ)
    → e.stamp ≡ suc n
    → Until n (v ∷ l)
    → Distinct (v ∷ l)
    → find h (v ∷ l) ≡ none
    → (pick (h, e) (v ∷ l)).0 ≢ h
unfolding pick
pick_older h e v l n s u d f q =
    let a : ltb v.1.stamp e.stamp ≡ true = ground (arith, s, u.0) in
    let same : pick (h, e) (v ∷ l) ≡ pick v l = ap (λ b. pick (if b then v else (h, e)) l) a in
    let all : FoundIn (v ∷ l) (v ∷ l) = FoundIn-self (v ∷ l) d in
    let found = find-pick v l (v ∷ l) all.0 all.1 in
    let here : find h (v ∷ l) ≡ some (pick v l).1 =
      ap (λ x. find x (v ∷ l)) (sym q ∙ ap (λ x. x.0) same) ∙ found in
    cc
