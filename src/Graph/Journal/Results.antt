-- ===== src/Graph/Journal/Results.antt =====
-- The results of the journal, taken apart: what a value that is returned says of the checks before it.
use ayran.Prelude.{◌≡◌, refl, Bool, true, false, Option, none, some}
use ayran.Graph.Journal.{ok, raised, ◌>>=◌, demand, unless, Code, Checked}

pub bind_ok {ℓ κ} :
    {A : Type ℓ} {B : Type κ} (c : Checked A) (f : A → Checked B) (y : B)
    → (c >>= f) ≡ ok y
    → (x : A) × (c ≡ ok x) × (f x ≡ ok y)
bind_ok (ok x) f y h = (x, refl, h)
bind_ok (raised e) f y h = cc

pub demand_ok {ℓ} :
    {A : Type ℓ} (b : Bool) (code : Code) (next : Checked A) (y : A)
    → demand b code next ≡ ok y
    → (b ≡ true) × (next ≡ ok y)
demand_ok true code next y h = (refl, h)
demand_ok false code next y h = cc

pub unless_ok {ℓ} :
    {A : Type ℓ} (o : Option Code) (next : Checked A) (y : A)
    → unless o next ≡ ok y
    → (o ≡ none) × (next ≡ ok y)
unless_ok none next y h = (refl, h)
unless_ok (some e) next y h = cc

pub ok-injective {ℓ} : {A : Type ℓ} (x y : A) → ok x ≡ ok y → x ≡ y
ok-injective x y h = cc
