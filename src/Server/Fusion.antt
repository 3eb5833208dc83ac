-- ===== src/Server/Fusion.antt =====
-- Fusing two magics: the server's write through an iterator, in server/server_processor.cpp, and the
-- client's, in client/client_processor.cpp.
use niba.Prelude.{
  ℕ, zero, suc, ◌<◌, ◌≤◌, ◌≡◌, refl, ap, sym, ◌∙◌, true, false, ltb, List, [], ◌∷◌, length, modify,
  arith, ltb→lt, lt→ltb, Bool-cases, inl, inr, ◌⊎◌,
}
use niba.Message.Validate.{find_magic}
use niba.Prelude.Int.{ℤ, eqb_ℤ}
use niba.Prelude.Run.{done, done-injective}
use niba.Structs.{Magic}
use niba.Server.Magics.{place_of, remove_magic, overwrite}
use niba.Client.Processor.{replace_magic}

-- To remove a magic behind another leaves the other's place.
place_of-remove_magic :
    (p s : ℤ) (ms : List Magic)
    → place_of p ms < place_of s ms
    → place_of p (remove_magic s ms) ≡ place_of p ms
unfolding place_of remove_magic
place_of-remove_magic p s [] h = grind arith
place_of-remove_magic p s (m ∷ ms) h = let ih = place_of-remove_magic p s ms in grind arith

remove_magic-place_of :
    (p s : ℤ) (ms : List Magic) → eqb_ℤ p s ≡ false → place_of p (remove_magic s ms) ≤ place_of p ms
unfolding place_of remove_magic
remove_magic-place_of p s [] d = omega arith
remove_magic-place_of p s (m ∷ ms) d = let ih = remove_magic-place_of p s ms d in grind arith

-- To remove a magic before another moves the other.
remove_magic-moves :
    (p s : ℤ) (ms : List Magic)
    → eqb_ℤ p s ≡ false
    → place_of s ms ≤ place_of p ms
    → place_of p ms < length (remove_magic s ms)
    → place_of p (remove_magic s ms) < place_of p ms
unfolding place_of remove_magic
remove_magic-moves p s [] d h l = grind arith
remove_magic-moves p s (m ∷ ms) d h l =
    let ih = remove_magic-moves p s ms d in let up = remove_magic-place_of p s ms d in grind arith

find_magic-remove_magic :
    (p s : ℤ) (ms : List Magic)
    → eqb_ℤ p s ≡ false
    → find_magic p (remove_magic s ms) ≡ find_magic p ms
unfolding find_magic remove_magic
find_magic-remove_magic p s [] d = refl
find_magic-remove_magic p s (m ∷ ms) d = let ih = find_magic-remove_magic p s ms d in grind arith

-- A write behind a magic leaves what is found by its id.
find_magic-modify :
    (p : ℤ) (magic : Magic) (xs : List Magic) (place : ℕ)
    → place_of p xs < place
    → find_magic p (modify xs place (λ _. magic)) ≡ find_magic p xs
unfolding find_magic place_of
find_magic-modify p magic [] place h = refl
find_magic-modify p magic (x ∷ xs) zero h = grind arith
find_magic-modify p magic (x ∷ xs) (suc place) h =
    let ih = find_magic-modify p magic xs place in grind arith

replace_magic-at :
    (p : ℤ) (magic : Magic) (xs : List Magic) (place : ℕ)
    → place_of p xs ≡ place
    → place < length xs
    → replace_magic p magic xs ≡ done (modify xs place (λ _. magic))
unfolding replace_magic
replace_magic-at p magic xs place e l = rw e (rw (lt→ltb place (length xs) l) refl)

-- The server's write is defined where the place is one of a magic that is left.
overwrite-defined :
    (s : ℤ) (place : ℕ) (magic : Magic) (ms after : List Magic)
    → overwrite s place magic ms ≡ done after
    → (place < length (remove_magic s ms)) × (modify (remove_magic s ms) place (λ _. magic) ≡ after)
unfolding overwrite
overwrite-defined s place magic ms after h =
    elim (Bool-cases (ltb place (length (remove_magic s ms)))) [
      | inl b ↦ (ltb→lt place (length (remove_magic s ms)) b, done-injective (overwritten b ∙ h))
      | inr b ↦ cc
    ]
  where
    overwritten :
        ltb place (length (remove_magic s ms)) ≡ true
        → done (modify (remove_magic s ms) place (λ _. magic)) ≡ overwrite s place magic ms
    overwritten b = rw b refl

-- The magics `ms` of the server become `after`. Either the primary magic stands before the secondary,
-- and the client's write leaves the same magics; or it does not, and by its id the old one is found.
abbrev pub Overwritten : ℤ → ℤ → Magic → List Magic → List Magic → Type 0
Overwritten p s magic ms after =
    ((place_of p ms < place_of s ms) × (replace_magic p magic (remove_magic s ms) ≡ done after))
    ⊎ ((place_of s ms ≤ place_of p ms) × (find_magic p after ≡ find_magic p ms))

pub overwrite-Overwritten :
    (p s : ℤ) (magic : Magic) (ms after : List Magic)
    → eqb_ℤ p s ≡ false
    → overwrite s (place_of p ms) magic ms ≡ done after
    → Overwritten p s magic ms after
overwrite-Overwritten p s magic ms after d h =
    let (bound, e) = overwrite-defined s (place_of p ms) magic ms after h in
    elim (Bool-cases (ltb (place_of p ms) (place_of s ms))) [
      | inl b ↦
          let behind = ltb→lt (place_of p ms) (place_of s ms) b in
          inl (
            behind,
            replace_magic-at p magic (remove_magic s ms) (place_of p ms)
                  (place_of-remove_magic p s ms behind) bound
                ∙ ap (λ l. done l) e,
          )
      | inr b ↦
          let before : place_of s ms ≤ place_of p ms = ground arith in
          inr (
            before,
            ap (find_magic p) (sym e)
                ∙ find_magic-modify p magic (remove_magic s ms) (place_of p ms)
                    (remove_magic-moves p s ms d before bound)
                ∙ find_magic-remove_magic p s ms d,
          )
    ]
