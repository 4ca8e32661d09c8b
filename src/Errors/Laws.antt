-- ===== src/Errors/Laws.antt =====
-- Chains of calls that return.
use symbolserver.Prelude.{◌≡◌, refl, ◌⊎◌, inl, inr}
use symbolserver.Errors.{Result, ok, err, panic, undefined, ErrorKind, ◌>>=◌}

-- The value in the middle of a chain that returned.
pub >>=-middle {ℓ κ} :
    {A : Type ℓ} {B : Type κ} (m : Result A) (f : A → Result B) (b : B)
    → (m >>= f) ≡ ok b
    → (a : A) × (m ≡ ok a) × (f a ≡ ok b)
>>=-middle (ok a) f b h = (a, refl, h)
>>=-middle (err e) f b h = absurd (cc h)
>>=-middle panic f b h = absurd (cc h)
>>=-middle undefined f b h = absurd (cc h)

-- A split on a computed outcome that keeps the equation.
pub Result-cases {ℓ} :
    {A : Type ℓ} (r : Result A)
    → ((a : A) × (r ≡ ok a)) ⊎ (((e : ErrorKind) × (r ≡ err e)) ⊎ ((r ≡ panic) ⊎ (r ≡ undefined)))
Result-cases (ok a) = inl (a, refl)
Result-cases (err e) = inr (inl (e, refl))
Result-cases panic = inr (inr (inl refl))
Result-cases undefined = inr (inr (inr refl))
