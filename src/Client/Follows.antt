-- ===== src/Client/Follows.antt =====
-- The player data of client and server through a fusion: client/client_processor.cpp and
-- server/server_processor.cpp.
use mathlib.Core.Path.{subst}
use niba.Prelude.{
  ℕ, ◌<◌, ◌≤◌, ◌≡◌, ◌≢◌, ◌⊎◌, inl, inr, ap, sym, ◌∙◌, Bool, true, false, Bool-cases, Option, none,
  some, List,
}
use niba.Prelude.Int.{ℤ, eqb_ℤ, eqb_ℤ_iff}
use niba.Prelude.Run.{Run, done, or_fault, undefined, done-injective}
use niba.Prelude.Exec.{◌>>=◌, ◌>>◌, >>=-eq-done, lift, pure, gets}
use niba.Structs.{SessionState, Magic, PlayerData, Player}
use niba.Message.{MessageFusemagic}
use niba.Message.Validate.{find_magic}
use niba.Server.World.{Env, World}
use niba.Server.Account.{query, set_session}
use niba.Server.Magics.{
  with_data, place_of, remove_id, fused, overwrite, player_value, select, finish_fusion,
  store_fusion, fuse, process_fusemagic,
}
use niba.Server.Fusion.{Overwritten, overwrite-Overwritten}
use niba.Client.Processor.{client_fusemagic}

different : (p s : ℤ) → p ≢ s → eqb_ℤ p s ≡ false
different p s apart = elim (Bool-cases (eqb_ℤ p s)) [
  | inl e ↦ absurd (apart ((eqb_ℤ_iff p s).0 e))
  | inr e ↦ e
]

-- A fusion on the server makes `b` of the player data `a`.
abbrev Fuses : MessageFusemagic → PlayerData → PlayerData → Type 0
Fuses m a b =
    Overwritten m.primary_magic_id m.secondary_magic_id m.magic a.magics b.magics
    × (b ≡ record a {
      magics = b.magics;
      equipped_magic_ids = remove_id m.secondary_magic_id a.equipped_magic_ids;
    })

-- Either the primary magic stands before the secondary, and the client ends with `b`; or it stands
-- behind it, and what is found by its id in `b` is what was found in `a`.
abbrev pub Followed : MessageFusemagic → SessionState → PlayerData → PlayerData → Type 0
Followed m t a b =
    ((place_of m.primary_magic_id a.magics < place_of m.secondary_magic_id a.magics)
      × (client_fusemagic m t ≡ done (record t { session_data = b })))
    ⊎ ((place_of m.secondary_magic_id a.magics ≤ place_of m.primary_magic_id a.magics)
        × (find_magic m.primary_magic_id b.magics ≡ find_magic m.primary_magic_id a.magics))

client_fusemagic-Fuses :
    (m : MessageFusemagic) (t : SessionState) (b : PlayerData)
    → m.success ≡ true
    → Fuses m t.session_data b
    → Followed m t t.session_data b
unfolding client_fusemagic
client_fusemagic-Fuses m t b h (inl (before, r), e) =
    inl
      (before, rw h (rw r (ap (λ (d : PlayerData). done (record t { session_data = d })) (sym e))))
client_fusemagic-Fuses m t b h (inr behind, e) = inr behind

module _ (env : Env) where
  open env use {Store, Engine, db, double}

  abbrev data_of : World Store Engine → PlayerData
  data_of w = w.session.session_data

  finish_fusion-Fuses :
      (req : MessageFusemagic) (place : ℕ) (magic : Magic) (equipped : List ℤ) (stored : Bool)
      (w v : World Store Engine) (m : MessageFusemagic)
      → place ≡ place_of req.primary_magic_id (data_of w).magics
      → equipped ≡ remove_id req.secondary_magic_id (data_of w).equipped_magic_ids
      → eqb_ℤ req.primary_magic_id req.secondary_magic_id ≡ false
      → finish_fusion env req place magic equipped stored w ≡ (done m, v)
      → m.success ≡ true
      → Fuses m (data_of w) (data_of v)
  unfolding finish_fusion
  finish_fusion-Fuses req place magic equipped false w v m p q d h s = cc
  finish_fusion-Fuses req place magic equipped true w v m p q d h s =
      let w₁ : World Store Engine = record w {
        session = with_data (λ a. record a { equipped_magic_ids = equipped }) w.session;
      } in
      let (after, u, e, k) =
        >>=-eq-done (lift (overwrite req.secondary_magic_id place magic (data_of w).magics))
          (λ magics. do
            set_session env (with_data (λ a. record a { magics = magics }))
            pure (record req { magic = magic; success = true }))
          w₁ h in
      let sent : MessageFusemagic = record req { magic = magic; success = true } in
      let e₀ : overwrite req.secondary_magic_id place magic (data_of w).magics ≡ done after =
        ap (λ (r : Run (List Magic) × World Store Engine). r.0) e in
      let written : World Store Engine → World Store Engine =
        λ x. record x { session = with_data (λ a. record a { magics = after }) x.session } in
      subst (λ m'. Fuses m' (data_of w) (data_of v))
        (done-injective (ap (λ (r : Run MessageFusemagic × World Store Engine). r.0) k))
        (subst (λ v'. Fuses sent (data_of w) (data_of v'))
          (ap (λ (r : Run MessageFusemagic × World Store Engine). r.1) k)
          (subst (λ u'. Fuses sent (data_of w) (data_of (written u')))
            (ap (λ (r : Run (List Magic) × World Store Engine). r.1) e)
            (
              overwrite-Overwritten req.primary_magic_id req.secondary_magic_id magic
                  (data_of w).magics after d
                  (subst
                    (λ n. overwrite req.secondary_magic_id n magic (data_of w).magics ≡ done after)
                    p e₀),
              ap (λ ids. record (data_of w) { magics = after; equipped_magic_ids = ids }) q,
            )))

  store_fusion-Fuses :
      (req : MessageFusemagic) (magic : Magic) (w v : World Store Engine) (m : MessageFusemagic)
      → eqb_ℤ req.primary_magic_id req.secondary_magic_id ≡ false
      → store_fusion env req magic w ≡ (done m, v)
      → m.success ≡ true
      → Fuses m (data_of w) (data_of v)
  unfolding store_fusion
  store_fusion-Fuses req magic w v m d h s =
      let place = place_of req.primary_magic_id (data_of w).magics in
      let equipped = remove_id req.secondary_magic_id (data_of w).equipped_magic_ids in
      let (player, u, e, k) =
        >>=-eq-done (player_value env)
          (λ player. do
            place ← gets (λ x. place_of req.primary_magic_id (data_of x).magics)
            equipped ← gets (λ x. remove_id req.secondary_magic_id (data_of x).equipped_magic_ids)
            stored ← query env (db.fuse_magic player.name magic req.secondary_magic_id equipped)
            finish_fusion env req place magic equipped stored)
          w h in
      let same : w.session ≡ u.session =
        ap (λ (r : Run Player × World Store Engine). r.1.session) e in
      let (stored, x, e', k') =
        >>=-eq-done
          (query env (
            db.fuse_magic player.name magic req.secondary_magic_id
              (remove_id req.secondary_magic_id (data_of u).equipped_magic_ids)))
          (finish_fusion env req (place_of req.primary_magic_id (data_of u).magics) magic
            (remove_id req.secondary_magic_id (data_of u).equipped_magic_ids))
          u k in
      let same' : u.session ≡ x.session =
        ap (λ (r : Run Bool × World Store Engine). r.1.session) e' in
      subst (λ (t : SessionState). Fuses m t.session_data (data_of v)) (sym (same ∙ same'))
        (finish_fusion-Fuses req (place_of req.primary_magic_id (data_of u).magics) magic
          (remove_id req.secondary_magic_id (data_of u).equipped_magic_ids) stored x v m
          (ap (λ (t : SessionState). place_of req.primary_magic_id t.session_data.magics) same')
          (ap
            (λ (t : SessionState).
              remove_id req.secondary_magic_id t.session_data.equipped_magic_ids)
            same')
          d k' s)

  fuse-Fuses :
      (req : MessageFusemagic) (primary : Magic) (secondary : Option Magic)
      (w v : World Store Engine) (m : MessageFusemagic)
      → req.success ≡ false
      → eqb_ℤ req.primary_magic_id req.secondary_magic_id ≡ false
      → fuse env req primary secondary w ≡ (done m, v)
      → m.success ≡ true
      → Fuses m (data_of w) (data_of v)
  unfolding fuse
  fuse-Fuses req primary none w v m f d h s = cc
  fuse-Fuses req primary (some secondary) w v m f d h s =
      let (chooser, u, e, k) =
        >>=-eq-done (λ (x : World Store Engine). (or_fault x.session.player undefined, x))
          (λ chooser. do
            selected ← select env chooser
            store_fusion env req (fused double selected primary secondary))
          w h in
      subst (λ (t : SessionState). Fuses m t.session_data (data_of v))
        (sym (ap (λ (r : Run Player × World Store Engine). r.1.session) e))
        (store_fusion-Fuses req _ _ v m d k s)

  -- Where the server's fusion of two magics of different ids succeeds, for a request that does not yet
  -- say so, one of two things happens. The primary magic stands before the secondary in the server's
  -- magics: the client, with the player data that the server had before, ends with the player data
  -- that the server has after. Or it stands behind: what the server finds by the id of the primary
  -- magic is what it found before the fusion.
  pub client_fusemagic-process :
      (req m : MessageFusemagic) (w v : World Store Engine) (t : SessionState)
      → process_fusemagic env req w ≡ (done m, v)
      → req.primary_magic_id ≢ req.secondary_magic_id
      → req.success ≡ false
      → m.success ≡ true
      → t.session_data ≡ w.session.session_data
      → Followed m t w.session.session_data v.session.session_data
  unfolding process_fusemagic
  client_fusemagic-process req m w v t h apart f s same =
      let magics = (data_of w).magics in
      let d : eqb_ℤ req.primary_magic_id req.secondary_magic_id ≡ false =
        different req.primary_magic_id req.secondary_magic_id apart in
      let (primary, u, e, k) =
        >>=-eq-done (lift (or_fault (find_magic req.primary_magic_id magics) undefined))
          (λ primary. fuse env req primary (find_magic req.secondary_magic_id magics)) w h in
      let left : data_of w ≡ data_of u =
        ap (λ (r : Run Magic × World Store Engine). data_of r.1) e in
      subst (λ (a : PlayerData). Followed m t a (data_of v)) same
        (client_fusemagic-Fuses m t (data_of v) s (
          subst (λ (a : PlayerData). Fuses m a (data_of v)) (sym (same ∙ left))
            (fuse-Fuses req primary (find_magic req.secondary_magic_id magics) u v m f d k s)))
