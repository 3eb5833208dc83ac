-- ===== src/Fight/Sources.antt =====
-- The two random sources of shared/rng.h. The server draws numbers and records them; the client
-- reads the recorded numbers.
use niba.Prelude.{ℕ, suc, Bool, List, [], ◌∷◌, ◌++◌, ltb, length, get_elem?, if◌then◌else◌}
use niba.Prelude.Int.{ℤ, ltb_ℤ}
use niba.Prelude.Run.{done, fault, or_fault, boost_assert, undefined, ◌>>=◌}
use niba.Prelude.Draws.{Rng}

-- `engine` is the state of std::mt19937.
pub record ServerRng (Engine : Type 0) : Type 0 where
  pub engine : Engine
  pub generated : List ℤ

-- `uniform` is std::uniform_int_distribution on the engine, whose bounds must be in order.
unfoldable pub rng_server :
    {Engine : Type 0} → (Engine → ℤ → ℤ → ℤ × Engine) → Rng (ServerRng Engine)
rng_server uniform lower upper r =
    if ltb_ℤ upper lower
    then fault undefined
    else (let (result, e) = uniform r.engine lower upper in
        done (result, record { engine = e; generated = r.generated ++ (result ∷ []) }))

pub record ClientRng : Type 0 where
  pub internal_idx : ℕ
  pub precomputed : List ℤ

unfoldable pub rng_client : Bool → Rng ClientRng
rng_client asserts lower upper c = do
  _ ← boost_assert asserts (ltb c.internal_idx (length c.precomputed))
  v ← or_fault (get_elem? c.precomputed c.internal_idx) undefined
  done (v, record c { internal_idx = suc c.internal_idx })
