-- ===== src/Database/Fusions.antt =====
-- `fuse_magic` of server/db_accessor.cpp is one transaction.
use niba.Prelude.{
  ◌≡◌, refl, ap, ◌∙◌, ◌⊎◌, inl, inr, String, Bool, true, false, none, List, Bool-cases,
  Option-cases, if◌then◌else◌,
}
use niba.Prelude.Int.{ℤ}
use niba.Prelude.Run.{Run, done, done-injective}
use niba.Structs.{Magic}
use niba.Database.{Answer, rows, unique_violation, failed, Sql}
use niba.Database.Accessor.{succeeded, execute, fuse_in, fuse_magic}
use niba.Database.Tables.{Tables, IsLawful, set_magic, set_equipped, updated_magic}

-- The tables once a magic is written over, another is deleted, and the equipped ones are stored.
abbrev pub fused_tables : String → Magic → ℤ → List ℤ → Tables → Tables
fused_tables name m delete_magic_id ids t =
    let written = set_magic t name m.magic_id (updated_magic m (t.magics name m.magic_id)) in
    set_equipped (set_magic written name delete_magic_id none) name ids

pub succeeded-rows : (a : Answer (Unit {0})) → succeeded a ≡ true → a ≡ rows tt
succeeded-rows (rows u) h = refl
succeeded-rows unique_violation h = cc
succeeded-rows failed h = cc

all_succeeded :
    {A : Type 0} (a b c : A) (x y : Bool) {z : Bool}
    → (if◌then◌else◌ {A = Bool × A} x (if y then (z, c) else (false, b)) (false, a)).0 ≡ true
    → (x ≡ true) × (y ≡ true) × (z ≡ true)
all_succeeded a b c true true h = (refl, refl, h)
all_succeeded a b c true false h = cc
all_succeeded a b c false y h = cc

module _ (sql : Sql) (lawful : IsLawful sql) where
  open sql use {State, Tx, begin, commit, update_magic_tx, delete_magic_tx, upsert_equipped_tx}
  open lawful use {view, view_tx}

  fuse_in-view :
      (name : String) (m : Magic) (id : ℤ) (ids : List ℤ) (tx : Tx)
      → (fuse_in sql name m id ids tx).0 ≡ true
      → view_tx (fuse_in sql name m id ids tx).1 ≡ fused_tables name m id ids (view_tx tx)
  unfolding fuse_in
  fuse_in-view name m id ids tx h =
      let a = (update_magic_tx name m tx).1 in
      let b = (delete_magic_tx name id a).1 in
      let (e, f, g) =
        all_succeeded a b (upsert_equipped_tx name ids b).1
          (succeeded (update_magic_tx name m tx).0) (succeeded (delete_magic_tx name id a).0) h in
      rw (e, f)
        (lawful.upsert_equipped_tx-view name ids b (succeeded-rows _ g)
          ∙ ap (λ t. set_equipped t name ids)
              (lawful.delete_magic_tx-view name id a (succeeded-rows _ f)
                ∙ ap (λ t. set_magic t name id none)
                    (lawful.update_magic_tx-view name m tx (succeeded-rows _ e))))

  abbrev Atomic : Tables → Tables → Run Bool × State → Type 0
  Atomic old new (r, t) = ((view t ≡ old) ⊎ (view t ≡ new)) × (r ≡ done true → view t ≡ new)

  committed-Atomic :
      (old new : Tables) (tx : Tx) (s : State)
      → view_tx tx ≡ new
      → view s ≡ old
      → Atomic old new (execute sql (commit tx) s)
  committed-Atomic old new tx s e f = (
    elim (lawful.commit-view tx s) [ inl k ↦ inr (k ∙ e) | inr k ↦ inl (k ∙ f) ],
    λ h. lawful.commit-done tx s (succeeded-rows (commit tx s).0 (done-injective h)) ∙ e,
  )

  -- Whatever fails, and whether or not the reply to the commit is lost: the tables are as they were,
  -- or the magic is written over, the other is deleted and the equipped ones are stored; if the answer
  -- is true, it is the latter.
  pub fuse_magic-atomic :
      (name : String) (m : Magic) (delete_magic_id : ℤ) (ids : List ℤ) (s : State)
      → ((view (fuse_magic sql name m delete_magic_id ids s).1 ≡ view s)
          ⊎ (view (fuse_magic sql name m delete_magic_id ids s).1
              ≡ fused_tables name m delete_magic_id ids (view s)))
        × ((fuse_magic sql name m delete_magic_id ids s).0 ≡ done true
            → view (fuse_magic sql name m delete_magic_id ids s).1
              ≡ fused_tables name m delete_magic_id ids (view s))
  unfolding fuse_magic
  fuse_magic-atomic name m id ids s = elim (Option-cases (begin s).0) [
    | inl e ↦ rw (fuse_magic, e) (inl (lawful.begin-view s), λ h. cc)
    | inr (tx, e) ↦
        let seen = lawful.begin-view_tx s e in
        elim (Bool-cases (fuse_in sql name m id ids tx).0) [
          | inl f ↦
              rw (fuse_magic, e, f)
                (committed-Atomic (view s) (fused_tables name m id ids (view s))
                  (fuse_in sql name m id ids tx).1 (begin s).1
                  (fuse_in-view name m id ids tx f ∙ ap (fused_tables name m id ids) seen)
                  (lawful.begin-view s))
          | inr f ↦ rw (fuse_magic, e, f) (inl (lawful.begin-view s), λ h. cc)
        ]
  ]
