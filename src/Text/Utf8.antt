-- ===== src/Text/Utf8.antt =====
-- Texts padded with zero bytes: still UTF-8, and trimmed back to what they were.
use symbolserver.Prelude.{ℕ, zero, suc, ◌≡◌, refl, true, false}
use symbolserver.Prelude.{Option, none, some, List, [], ◌∷◌, ◌++◌, replicate, arith}
use symbolserver.Errors.{Str}
use symbolserver.Text.{lead, utf8_from, is_utf8, trim_zeros}

zeros-utf8_from : (n : ℕ) → utf8_from [] (replicate n 0) ≡ true
unfolding utf8_from
zeros-utf8_from zero = refl
zeros-utf8_from (suc n) = zeros-utf8_from n

padded-utf8_from :
    (rs : List (ℕ × ℕ)) (s : Str) (n : ℕ)
    → utf8_from rs s ≡ true
    → utf8_from rs (s ++ replicate n 0) ≡ true
unfolding utf8_from
padded-utf8_from [] [] n h = zeros-utf8_from n
padded-utf8_from (r ∷ rs) [] n h = cc
padded-utf8_from [] (b ∷ s) n h = go (lead b) (λ rs. padded-utf8_from rs s n) h
  where
    go :
        (o : Option (List (ℕ × ℕ)))
        → ((rs : List (ℕ × ℕ)) → utf8_from rs s ≡ true → utf8_from rs (s ++ replicate n 0) ≡ true)
        → (elim o [ none ↦ false | some rs ↦ utf8_from rs s ]) ≡ true
        → (elim o [ none ↦ false | some rs ↦ utf8_from rs (s ++ replicate n 0) ]) ≡ true
    go none ih h = cc
    go (some rs) ih h = ih rs h
padded-utf8_from ((lo, hi) ∷ rs) (b ∷ s) n h = ground (arith, padded-utf8_from rs s n)

trim_zeros-zeros : (n : ℕ) → trim_zeros (replicate n 0) ≡ []
unfolding trim_zeros
trim_zeros-zeros zero = refl
trim_zeros-zeros (suc n) = rw (trim_zeros-zeros n)

pub trim_zeros-padded : (s : Str) (n : ℕ) → trim_zeros (s ++ replicate n 0) ≡ trim_zeros s
unfolding trim_zeros
trim_zeros-padded [] n = trim_zeros-zeros n
trim_zeros-padded (b ∷ s) n = rw (trim_zeros-padded s n)

pub padded-is_utf8 : (s : Str) (n : ℕ) → is_utf8 s ≡ true → is_utf8 (s ++ replicate n 0) ≡ true
unfolding is_utf8
padded-is_utf8 s n h = padded-utf8_from [] s n h
