-- ===== src/Fight/Replay.antt =====
-- `fight::go` of shared/fight.cpp with the two sources of shared/rng.h: the one that records and the
-- one that reads the record.
use niba.Prelude.{
  ℕ, zero, suc, ◌<◌, ◌≡◌, sym, ap, ◌∙◌, Bool, true, false, Option, none, some, List, [], ◌∷◌, ◌++◌,
  append-nil, append_assoc, arith, length, length-append, get_elem?, get_elem?-append,
  if◌then◌else◌,
}
use niba.Prelude.Int.{ℤ}
use niba.Prelude.Run.{Run, done}
use niba.Prelude.Draws.{Draws, ◌>>=◌, lift, >>=-eq-done, >>=-of_done, lift-eq-done, lift-of_done}
use niba.Prelude.Double.{Double}
use niba.Structs.{Magic}
use niba.Fight.Fighter.{Fightable}
use niba.Fight.Damage.{hit, damage_calc}
use niba.Fight.Rounds.{Fight, Battle, use_magic, attack, turn, is_over, loop, go}
use niba.Fight.Sources.{ServerRng, ClientRng, rng_server, rng_client}

-- A draw of the server adds its result to the record.
server_records :
    {Engine : Type 0} (uniform : Engine → ℤ → ℤ → ℤ × Engine) (lower upper v : ℤ)
    (s s' : ServerRng Engine)
    → rng_server uniform lower upper s ≡ done (v, s')
    → s'.generated ≡ s.generated ++ (v ∷ [])
unfolding rng_server
server_records uniform lower upper v s s' e = ground arith

-- The client reads the number behind those that it has read.
client_reads :
    (recorded : List ℤ) (asserts : Bool) (lower upper : ℤ) (before post : List ℤ) (v : ℤ)
    → recorded ≡ before ++ (v ∷ post)
    → rng_client asserts lower upper
        (record { internal_idx = length before; precomputed = recorded })
      ≡ done (v, record { internal_idx = suc (length before); precomputed = recorded })
unfolding rng_client
client_reads recorded asserts lower upper before post v e =
    let found : get_elem? recorded (length before) ≡ some v =
      ap (λ (l : List ℤ). get_elem? l (length before)) e ∙ get_elem?-append before post v in
    let within : length before < length recorded =
      omega (arith, ap length e, length-append before (v ∷ post)) in
    ground arith

module _ {Engine : Type 0} (recorded : List ℤ) where
  -- The client's source once it has read what the server has recorded so far.
  abbrev pub client_of : ServerRng Engine → ClientRng
  client_of s = record { internal_idx = length s.generated; precomputed = recorded }

  -- Whatever the first code yields, it only adds to the record; and if `recorded` begins with the
  -- record that it leaves, the second code yields the same.
  pub record Replays {A : Type 0} (m : Draws (ServerRng Engine) A) (n : Draws ClientRng A)
      : Type 0 where
    pub at :
        (s : ServerRng Engine) (a : A) (s' : ServerRng Engine)
        → m s ≡ done (a, s')
        → (new : List ℤ) × (s'.generated ≡ s.generated ++ new)
          × ((post : List ℤ)
              → recorded ≡ s'.generated ++ post
              → n (client_of s) ≡ done (a, client_of s'))

  lift-Replays : {A : Type 0} (m : Run A) → Replays (lift m) (lift m)
  lift-Replays m = record {
    at = λ s b s' e.
        let (p, q) = lift-eq-done m e in
        (
          [],
          ap (λ (t : ServerRng Engine). t.generated) (sym q) ∙ sym (append-nil s.generated),
          λ post _. lift-of_done m (client_of s) p ∙ ap (λ t. done (b, client_of t)) q,
        );
  }

  >>=-Replays :
      {A B : Type 0} (m : Draws (ServerRng Engine) A) (n : Draws ClientRng A)
      (f : A → Draws (ServerRng Engine) B) (g : A → Draws ClientRng B)
      → Replays m n
      → ((a : A) → Replays (f a) (g a))
      → Replays (m >>= f) (n >>= g)
  >>=-Replays m n f g hm hf = record {
    at = λ s b s₂ e.
        let (a, s₁, e₁, e₂) = >>=-eq-done m f e in
        let (new₁, p₁, k₁) = hm.at s a s₁ e₁ in
        let (new₂, p₂, k₂) = (hf a).at s₁ b s₂ e₂ in
        (
          new₁ ++ new₂,
          p₂ ∙ ap (λ (t : List ℤ). t ++ new₂) p₁ ∙ append_assoc s.generated new₁ new₂,
          λ post q.
              >>=-of_done n g (
                k₁ (new₂ ++ post)
                  (q ∙ ap (λ (t : List ℤ). t ++ post) p₂ ∙ append_assoc s₁.generated new₂ post))
              ∙ k₂ post q,
        );
  }

  if-Replays :
      {A : Type 0} (b : Bool) (m₁ m₂ : Draws (ServerRng Engine) A) (n₁ n₂ : Draws ClientRng A)
      → Replays m₁ n₁
      → Replays m₂ n₂
      → Replays (if b then m₁ else m₂) (if b then n₁ else n₂)
  if-Replays true m₁ m₂ n₁ n₂ h₁ h₂ = h₁
  if-Replays false m₁ m₂ n₁ n₂ h₁ h₂ = h₂

  ruleset replay_rules = (lift-Replays, >>=-Replays, if-Replays)

  module _ (uniform : Engine → ℤ → ℤ → ℤ × Engine) (asserts : Bool) where
    rng-Replays :
        (lower upper : ℤ)
        → Replays (rng_server uniform lower upper) (rng_client asserts lower upper)
    rng-Replays lower upper = record {
      at = λ s v s' e.
          let grown = server_records uniform lower upper v s s' e in
          (
            v ∷ [],
            grown,
            λ post q.
                client_reads recorded asserts lower upper s.generated post v (
                  q ∙ ap (λ (l : List ℤ). l ++ post) grown ∙ append_assoc s.generated (v ∷ []) post)
                ∙ ap {B = Run (ℤ × ClientRng)}
                    (λ n. done (v, record { internal_idx = n; precomputed = recorded }))
                    (omega (arith, ap length grown, length-append s.generated (v ∷ []))),
          );
    }

    module _ (d : Double) where
      hit-Replays :
          (attacker : Fightable) (m : Magic) (defender : Fightable)
          → Replays
              (hit d asserts (rng_server uniform) attacker m defender)
              (hit d asserts (rng_client asserts) attacker m defender)
      unfolding hit
      hit-Replays attacker m defender = search (replay_rules, rng-Replays)

      damage_calc-Replays :
          (attacker : Fightable) (m : Magic) (defender : Fightable)
          → Replays
              (damage_calc d asserts (rng_server uniform) attacker m defender)
              (damage_calc d asserts (rng_client asserts) attacker m defender)
      unfolding damage_calc
      damage_calc-Replays attacker m defender = search (replay_rules, rng-Replays, hit-Replays)

      use_magic-Replays :
          (fs : List Fightable) (a t : ℕ) (picked : Option ℕ)
          → Replays
              (use_magic d asserts (rng_server uniform) fs a t picked)
              (use_magic d asserts (rng_client asserts) fs a t picked)
      unfolding use_magic
      use_magic-Replays fs a t none = search (replay_rules, damage_calc-Replays)
      use_magic-Replays fs a t (some k) = search (replay_rules, damage_calc-Replays) depth 8

      attack-Replays :
          (b : Battle) (a t : ℕ)
          → Replays
              (attack d asserts (rng_server uniform) b a t)
              (attack d asserts (rng_client asserts) b a t)
      unfolding attack
      attack-Replays b a t = search (replay_rules, use_magic-Replays)

      turn-Replays :
          (b : Battle)
          → Replays (turn d asserts (rng_server uniform) b) (turn d asserts (rng_client asserts) b)
      unfolding turn
      turn-Replays b = search (replay_rules, attack-Replays) depth 8

      loop-Replays :
          (fuel : ℕ) (b : Battle)
          → Replays
              (loop d asserts (rng_server uniform) fuel b)
              (loop d asserts (rng_client asserts) fuel b)
      unfolding loop
      loop-Replays zero b = search replay_rules
      loop-Replays (suc fuel) b =
          if-Replays (is_over b) _ _ _ _ (lift-Replays _)
            (>>=-Replays _ _ _ _ (turn-Replays b) (loop-Replays fuel))

      pub go-Replays :
          (fuel : ℕ) (f : Fight)
          → Replays
              (go d asserts (rng_server uniform) fuel f)
              (go d asserts (rng_client asserts) fuel f)
      unfolding go
      go-Replays fuel f = search (replay_rules, loop-Replays)

-- Whatever number of turns the server's fight takes, the client's fight with the recorded numbers
-- ends with the same winner and the same fighters, and reads exactly the recorded numbers.
pub client_agrees :
    (d : Double) (asserts : Bool) {Engine : Type 0} (uniform : Engine → ℤ → ℤ → ℤ × Engine)
    (fuel : ℕ) (f : Fight) (e : Engine) (outcome : ℕ × Fight) (left : ServerRng Engine)
    → go d asserts (rng_server uniform) fuel f (record { engine = e; generated = [] })
      ≡ done (outcome, left)
    → go d asserts
        (rng_client asserts)
        fuel
        f
        (record { internal_idx = 0; precomputed = left.generated })
      ≡ done
          (outcome, record { internal_idx = length left.generated; precomputed = left.generated })
client_agrees d asserts uniform fuel f e outcome left h =
    ((go-Replays left.generated uniform asserts d fuel f).at _ outcome left h).2 []
      (sym (append-nil left.generated))
