-- ===== src/Client/Main/Script.antt =====
-- What the loop of client/main.cpp makes of the lines that are typed.
use niba.Prelude.{
  ℕ, zero, suc, ◌<◌, ◌≡◌, refl, String, Bool, true, false, List, [], ◌∷◌, length, arith, inl, inr,
  Bool-cases, if◌then◌else◌,
}
use niba.Prelude.Int.{ℤ}
use niba.Prelude.Run.{Run, done, fault, out_of_fuel, ◌>>=◌}
use niba.Prelude.Strings.{str_eq}
use niba.Client.Main.{getline, Console, is_exit, command, main_loop, client_main}

-- The lines before the first that is empty, `exit` or `quit`.
unfoldable pub heard : List String → List String
heard [] = []
heard (line ∷ lines) =
    let rest = heard lines in
    if str_eq line "" then [] else if is_exit line then [] else line ∷ rest

-- Such a line comes, and the first is an empty one.
unfoldable pub spins : List String → Bool
spins [] = false
spins (line ∷ lines) =
    let rest = spins lines in if str_eq line "" then true else if is_exit line then false else rest

>>=-extends :
    {A B C : Type 0} (m : Run A) (f : A → Run B) (g : B → Run C) (h : A → Run C)
    → ((a : A) → h a ≡ (f a >>= g))
    → (m >>= h) ≡ ((m >>= f) >>= g)
>>=-extends (done a) f g h e = e a
>>=-extends (fault x) f g h e = refl
>>=-extends out_of_fuel f g h e = refl

module _ {S : Type 0} (console : Console S) where
  abbrev pub run_all : List String → ℤ × S → Run (ℤ × S)
  run_all [] at = done at
  run_all (line ∷ lines) at = command console line at >>= run_all lines

  spinning :
      (fuel : ℕ) (line : String) (lines : List String) (at : ℤ × S)
      → str_eq line "" ≡ true
      → main_loop console fuel (record { good = true; line = line; unread = lines }) at
        ≡ out_of_fuel
  unfolding main_loop
  spinning zero line lines at e = refl
  spinning (suc fuel) line lines at e = rw e (spinning fuel line lines at e)

  main_loop-script :
      (fuel : ℕ) (lines : List String) (at : ℤ × S)
      → length lines < fuel
      → main_loop console fuel (getline lines) at
        ≡ (run_all (heard lines) at >>= λ last. if spins lines then out_of_fuel else done last)
  unfolding main_loop getline heard spins
  main_loop-script zero lines at l = absurd (omega (arith, l))
  main_loop-script (suc fuel) [] at l = refl
  main_loop-script (suc fuel) (line ∷ lines) at l = elim (Bool-cases (str_eq line "")) [
    | inl e ↦ rw e (spinning fuel line lines at e)
    | inr e ↦ elim (Bool-cases (is_exit line)) [
      | inl x ↦ rw (e, x) refl
      | inr x ↦
          rw (e, x)
            (>>=-extends (command console line at) (run_all (heard lines)) _ _
              (λ next. main_loop-script fuel lines next (omega (arith, l))))
    ]
  ]

  -- With a session that is ready and fuel above the number of the lines that are typed, the client
  -- handles the lines before the first that is empty, `exit` or `quit`, in order, each from the state
  -- and the time that the one before has left; then it ends, unless that first line is an empty one,
  -- which it never gets past.
  pub client_main-script :
      (fuel : ℕ) (lines : List String) (at : ℤ × S)
      → length lines < fuel
      → client_main console true fuel lines at
        ≡ (run_all (heard lines) at >>= λ last. if spins lines then out_of_fuel else done last)
  unfolding client_main
  client_main-script fuel lines at l = main_loop-script fuel lines at l
