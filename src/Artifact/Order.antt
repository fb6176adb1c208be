-- ===== src/Artifact/Order.antt =====
-- `sorted` on a list of numbers, and lists that ascend (for the indexes in shakenfist/artifact.py).
use mathlib.Core.List.{[]}
use shakenfist.Prelude.{
  ℕ, zero, suc, ◌-◌, ◌<◌, ◌≡◌, refl, ap, ◌∙◌, List, ◌∷◌, ◌++◌, Option, none, some, leb, take, drop,
  length, All, All-append, if◌then◌else◌, arith,
}

unfoldable pub insert_sorted : ℕ → List ℕ → List ℕ
insert_sorted x [] = x ∷ []
insert_sorted x (y ∷ ys) = if leb x y then x ∷ y ∷ ys else y ∷ insert_sorted x ys

-- sorted(xs)
unfoldable pub sorted : List ℕ → List ℕ
unfolding insert_sorted
sorted [] = []
sorted (x ∷ xs) = insert_sorted x (sorted xs)

-- xs[-1]
abbrev pub last : List ℕ → Option ℕ
last [] = none
last (x ∷ []) = some x
last (x ∷ y ∷ xs) = last (y ∷ xs)

-- xs[:-n], which is empty for 0
unfoldable pub but_last : ℕ → List ℕ → List ℕ
but_last zero xs = []
but_last (suc n) xs = take (length xs - suc n) xs

-- Each number is above those before it.
abbrev pub Ascending : List ℕ → Type 0
Ascending [] = Unit
Ascending (x ∷ xs) = All (λ y. x < y) xs × Ascending xs

sorted-head : (x : ℕ) (xs : List ℕ) → All (λ y. x < y) xs → insert_sorted x xs ≡ x ∷ xs
unfolding insert_sorted
sorted-head x [] h = refl
sorted-head x (y ∷ xs) h = ground (arith, h.0)

-- A list that ascends is sorted already.
pub sorted-Ascending : (xs : List ℕ) → Ascending xs → sorted xs ≡ xs
unfolding sorted
sorted-Ascending [] h = refl
sorted-Ascending (x ∷ xs) h = ap (insert_sorted x) (sorted-Ascending xs h.1) ∙ sorted-head x xs h.0

pub last-append : (xs : List ℕ) (x : ℕ) → last (xs ++ x ∷ []) ≡ some x
last-append [] x = refl
last-append (y ∷ []) x = refl
last-append (y ∷ z ∷ xs) x = last-append (z ∷ xs) x

pub Ascending-append :
    (xs : List ℕ) (x : ℕ) → Ascending xs → All (λ y. y < x) xs → Ascending (xs ++ x ∷ [])
Ascending-append [] x h k = (tt, tt)
Ascending-append (y ∷ xs) x h k =
    (All-append (λ z. y < z) xs (x ∷ []) h.0 (k.0, tt), Ascending-append xs x h.1 k.1)

pub All-drop {ℓ κ} :
    {A : Type ℓ} (P : A → Type κ) (n : ℕ) (xs : List A) → All P xs → All P (drop n xs)
All-drop P zero xs h = h
All-drop P (suc n) [] h = tt
All-drop P (suc n) (x ∷ xs) h = All-drop P n xs h.1

pub Ascending-drop : (n : ℕ) (xs : List ℕ) → Ascending xs → Ascending (drop n xs)
Ascending-drop zero xs h = h
Ascending-drop (suc n) [] h = tt
Ascending-drop (suc n) (x ∷ xs) h = Ascending-drop n xs h.1
