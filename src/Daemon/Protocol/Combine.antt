-- ===== src/Daemon/Protocol/Combine.antt =====
-- Sequences of moves of the protocol, and those of the tests and cases that the handlers are made of.
use workingman.Prelude.{◌≡◌, refl, subst, Bool, true, false, Option, none, some, if◌then◌else◌}
use workingman.Project.{Project}
use workingman.Daemon.State.{World, ProjectFile, absent, broken, parsed}
use workingman.Daemon.Review.{Handled}
use workingman.Daemon.Protocol.{Slots, Moves, stay, move, slots_of}

pub Moves-trans : {s t u : Slots} → Moves s t → Moves t u → Moves s u
Moves-trans stay n = n
Moves-trans (move m ms) n = move m (Moves-trans ms n)

-- Operations that keep the slots, before and after a sequence of moves.
pub Moves-before : {s t u : Slots} → s ≡ t → Moves s u → Moves t u
Moves-before {u = u} e m = subst (λ x. Moves x u) e m

pub Moves-after : {s t u : Slots} → Moves s t → t ≡ u → Moves s u
Moves-after {s} m e = subst (λ x. Moves s x) e m

pub Moves-quiet : {s t : Slots} → s ≡ t → Moves s t
Moves-quiet e = Moves-after stay e

-- The moves of a test, of a test that gives a `Handled`, and of a case on an option.
pub Moves-if :
    (b : Bool) {s : Slots} (x y : World)
    → (b ≡ true → Moves s (slots_of x))
    → (b ≡ false → Moves s (slots_of y))
    → Moves s (slots_of (if b then x else y))
Moves-if true x y on_true on_false = on_true refl
Moves-if false x y on_true on_false = on_false refl

pub Moves-if_handled :
    (b : Bool) {s : Slots} (x y : Handled)
    → (b ≡ true → Moves s (slots_of x.world))
    → (b ≡ false → Moves s (slots_of y.world))
    → Moves s (slots_of ((if b then x else y).world))
Moves-if_handled true x y on_true on_false = on_true refl
Moves-if_handled false x y on_true on_false = on_false refl

pub Moves-option {ℓ} :
    {A : Type ℓ} (o : Option A) {s : Slots} (x : World) (f : A → World)
    → Moves s (slots_of x)
    → ((a : A) → o ≡ some a → Moves s (slots_of (f a)))
    → Moves s (slots_of (elim o [ none ↦ x | some a ↦ f a ]))
Moves-option none x f on_none on_some = on_none
Moves-option (some a) x f on_none on_some = on_some a refl

pub Moves-file :
    (file : ProjectFile) {s : Slots} (x : World) (f : Project → World)
    → Moves s (slots_of x)
    → ((p : Project) → file ≡ parsed p → Moves s (slots_of (f p)))
    → Moves s (slots_of (elim file [ parsed p ↦ f p | _ ↦ x ]))
Moves-file absent x f otherwise on_parsed = otherwise
Moves-file broken x f otherwise on_parsed = otherwise
Moves-file (parsed p) x f otherwise on_parsed = on_parsed p refl

pub Moves-option_handled {ℓ} :
    {A : Type ℓ} (o : Option A) {s : Slots} (x : Handled) (f : A → Handled)
    → Moves s (slots_of x.world)
    → ((a : A) → o ≡ some a → Moves s (slots_of (Handled.world (f a))))
    → Moves s (slots_of (Handled.world (elim o [ none ↦ x | some a ↦ f a ])))
Moves-option_handled none x f on_none on_some = on_none
Moves-option_handled (some a) x f on_none on_some = on_some a refl
