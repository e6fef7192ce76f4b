-- ===== src/World/Inversion.antt =====
-- What a successful chain of actions has done.
use fasti_kit.Base.{◌≡◌, refl, arith}
use fasti_kit.Exceptions.{Result, ok, err}
use fasti_kit.World.{World, Action, continue, ◌>>=◌, settle, transaction}

continue_ok :
    {A B : Type 0} (r : Result A) (f : A → Action B) (w : World) (b : B)
    → (continue r f w).0 ≡ ok b
    → (a : A) × (r ≡ ok a) × ((f a w).0 ≡ ok b) × ((continue r f w).1 ≡ (f a w).1)
continue_ok (ok a) f w b h = (a, refl, h, refl)
continue_ok (err e) f w b h = cc

pub bind_ok :
    {A B : Type 0} (m : Action A) (f : A → Action B) (w : World) (b : B)
    → ((m >>= f) w).0 ≡ ok b
    → (a : A) × ((m w).0 ≡ ok a) × ((f a (m w).1).0 ≡ ok b) × (((m >>= f) w).1 ≡ (f a (m w).1).1)
unfolding ◌>>=◌
bind_ok m f w b h = continue_ok (m w).0 f (m w).1 b h

settle_ok :
    {A : Type 0} (r : Result A) (w : World) (a : A)
    → (settle r w).0 ≡ ok a
    → (r ≡ ok a) × ((settle r w).1.committed ≡ w.working)
settle_ok (ok a') w a h = ground arith
settle_ok (err e) w a h = cc

pub transaction_ok :
    {A : Type 0} (m : Action A) (w : World) (a : A)
    → (transaction m w).0 ≡ ok a
    → ((m w).0 ≡ ok a) × ((transaction m w).1.committed ≡ (m w).1.working)
unfolding transaction
transaction_ok m w a h = settle_ok (m w).0 (m w).1 a h
