-- ===== src/Prelude/Rules.antt =====
-- How a property of both branches of a test, or of both forms of a list, is one of the whole.
use mathlib.Core.Path.{◌≡◌, refl}
use mathlib.Core.Bool.{Bool, true, false}
use mathlib.Core.List.{List, [], ◌∷◌}
use slitherss.Prelude.Tests.{if◌then◌else◌}

pub if_rule :
    {A : Type 0} (P : A → Type 0) (b : Bool) {x y : A} → P x → P y → P (if b then x else y)
if_rule P true p q = p
if_rule P false p q = q

pub if_cases :
    {A : Type 0} (P : A → Type 0) (b : Bool) {x y : A}
    → (b ≡ true → P x)
    → (b ≡ false → P y)
    → P (if b then x else y)
if_cases P true p q = p refl
if_cases P false p q = q refl

pub head_rule :
    {A B : Type 0} (P : B → Type 0) (xs : List A) {d : B} {g : A → B}
    → P d
    → ((x : A) → P (g x))
    → P (elim xs [ [] ↦ d | x ∷ _ ↦ g x ])
head_rule P [] p q = p
head_rule P (x ∷ xs) p q = q x
