-- ===== src/Prelude/Lists.antt =====
-- Lists measured and indexed by native numbers, under the library's names.
use Prim.Native.Nat.{ℕ, zero, suc, ◌+◌, ◌-◌, ◌<◌, min}
use mathlib.Core.Path.{◌≡◌, refl, ap}
use mathlib.Core.Logic.{◌≢◌}
use mathlib.Core.List.{List, [], ◌∷◌, ◌++◌}
use native.Mathlib.Omega.{arith}
use eigen_book.Prelude.Tests.{◌==◌, if◌then◌else◌}

module _ {ℓ} {A : Type ℓ} where
  abbrev pub length : List A → ℕ
  length [] = 0
  length (x ∷ xs) = suc (length xs)

  abbrev pub get_or : List A → ℕ → A → A
  get_or [] i d = d
  get_or (x ∷ xs) zero d = x
  get_or (x ∷ xs) (suc i) d = get_or xs i d

  -- A write out of bounds changes nothing.
  abbrev pub set : List A → ℕ → A → List A
  set [] i v = []
  set (x ∷ xs) zero v = v ∷ xs
  set (x ∷ xs) (suc i) v = x ∷ set xs i v

  abbrev pub take : ℕ → List A → List A
  take zero xs = []
  take (suc n) [] = []
  take (suc n) (x ∷ xs) = x ∷ take n xs

  abbrev pub drop : ℕ → List A → List A
  drop zero xs = xs
  drop (suc n) [] = []
  drop (suc n) (x ∷ xs) = drop n xs

  abbrev pub replicate : ℕ → A → List A
  replicate zero a = []
  replicate (suc n) a = a ∷ replicate n a

  abbrev pub All {κ} : (A → Type κ) → List A → Type κ
  All P [] = Unit {κ}
  All P (x ∷ xs) = P x × All P xs

-- The `n` numbers that follow `s`.
abbrev pub count_up : ℕ → ℕ → List ℕ
count_up s zero = []
count_up s (suc n) = suc s ∷ count_up (suc s) n

-- The `n` numbers from `i` on.
abbrev pub ascending : ℕ → ℕ → List ℕ
ascending i zero = []
ascending i (suc n) = i ∷ ascending (suc i) n

module _ {ℓ} {A : Type ℓ} where
  pub length-append : (xs ys : List A) → length (xs ++ ys) ≡ length xs + length ys
  length-append [] ys = omega arith
  length-append (x ∷ xs) ys = omega (arith, length-append xs ys)

  pub length-set : (xs : List A) (i : ℕ) (v : A) → length (set xs i v) ≡ length xs
  length-set [] i v = refl
  length-set (x ∷ xs) zero v = refl
  length-set (x ∷ xs) (suc i) v = ap suc (length-set xs i v)

  pub length-replicate : (n : ℕ) (a : A) → length (replicate n a) ≡ n
  length-replicate zero a = refl
  length-replicate (suc n) a = ap suc (length-replicate n a)

  pub get_or-set_self :
      (xs : List A) (i : ℕ) (v d : A) → i < length xs → get_or (set xs i v) i d ≡ v
  get_or-set_self [] i v d h = elim h [ ]
  get_or-set_self (x ∷ xs) zero v d h = refl
  get_or-set_self (x ∷ xs) (suc i) v d h = get_or-set_self xs i v d (omega arith)

  pub get_or-set_ne :
      (xs : List A) (i j : ℕ) (v d : A) → i ≢ j → get_or (set xs i v) j d ≡ get_or xs j d
  get_or-set_ne [] i j v d h = refl
  get_or-set_ne (x ∷ xs) zero zero v d h = absurd (h refl)
  get_or-set_ne (x ∷ xs) zero (suc j) v d h = refl
  get_or-set_ne (x ∷ xs) (suc i) zero v d h = refl
  get_or-set_ne (x ∷ xs) (suc i) (suc j) v d h = get_or-set_ne xs i j v d (λ e. h (ap suc e))

  pub take-append-drop : (n : ℕ) (xs : List A) → take n xs ++ drop n xs ≡ xs
  take-append-drop zero xs = refl
  take-append-drop (suc n) [] = refl
  take-append-drop (suc n) (x ∷ xs) = ap (◌∷◌ x) (take-append-drop n xs)

  pub length-take : (n : ℕ) (xs : List A) → length (take n xs) ≡ min n (length xs)
  length-take zero xs = omega arith
  length-take (suc n) [] = omega arith
  length-take (suc n) (x ∷ xs) = omega (arith, length-take n xs)

  pub length-drop : (n : ℕ) (xs : List A) → length (drop n xs) ≡ length xs - n
  length-drop zero xs = omega arith
  length-drop (suc n) [] = omega arith
  length-drop (suc n) (x ∷ xs) = omega (arith, length-drop n xs)

  -- A window of `n` entries that ends where the write lands grows by the entry written.
  pub take-drop-set :
      (xs : List A) (b n i : ℕ) (v : A)
      → i ≡ b + n
      → i < length xs
      → take (suc n) (drop b (set xs i v)) ≡ take n (drop b xs) ++ v ∷ []
  take-drop-set [] b n i v e h = absurd (omega arith)
  take-drop-set (x ∷ xs) zero zero zero v e h = refl
  take-drop-set (x ∷ xs) zero zero (suc i) v e h = absurd (omega arith)
  take-drop-set (x ∷ xs) zero (suc n) zero v e h = absurd (omega arith)
  take-drop-set (x ∷ xs) zero (suc n) (suc i) v e h =
      ap (◌∷◌ x) (take-drop-set xs zero n i v (omega arith) (omega arith))
  take-drop-set (x ∷ xs) (suc b) n zero v e h = absurd (omega arith)
  take-drop-set (x ∷ xs) (suc b) n (suc i) v e h =
      take-drop-set xs b n i v (omega arith) (omega arith)

-- A memory as a function of the index, and a write to it.
abbrev pub update {ℓ} : {A : Type ℓ} → (ℕ → A) → ℕ → A → ℕ → A
update f i v j = if j == i then v else f j

-- No entry occurs twice.
abbrev pub NotIn : ℕ → List ℕ → Type 0
NotIn i = All (λ j. j ≢ i)

abbrev pub Distinct : List ℕ → Type 0
Distinct [] = Unit {0}
Distinct (i ∷ is) = NotIn i is × Distinct is

pub update_ne {ℓ} : {A : Type ℓ} (f : ℕ → A) (i : ℕ) (v : A) (j : ℕ) → j ≢ i → update f i v j ≡ f j
update_ne f i v j h = ground arith

pub update_self {ℓ} : {A : Type ℓ} (f : ℕ → A) (i : ℕ) (v : A) → update f i v i ≡ v
update_self f i v = ground arith

pub All-map {ℓ κ μ} :
    {A : Type ℓ} {P : A → Type κ} {Q : A → Type μ} (xs : List A)
    → ((x : A) → P x → Q x)
    → All P xs
    → All Q xs
All-map [] f h = tt
All-map (x ∷ xs) f h = (f x h.0, All-map xs f h.1)

pub length-ascending : (i n : ℕ) → length (ascending i n) ≡ n
length-ascending i zero = refl
length-ascending i (suc n) = ap suc (length-ascending (suc i) n)

pub ascending-NotIn : (j i n : ℕ) → j < i → NotIn j (ascending i n)
ascending-NotIn j i zero h = tt
ascending-NotIn j i (suc n) h = (omega arith, ascending-NotIn j (suc i) n (omega arith))

pub ascending-Distinct : (i n : ℕ) → Distinct (ascending i n)
ascending-Distinct i zero = tt
ascending-Distinct i (suc n) =
    (ascending-NotIn i (suc i) n (omega arith), ascending-Distinct (suc i) n)
