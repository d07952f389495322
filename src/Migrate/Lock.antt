-- ===== src/Migrate/Lock.antt =====
-- The advisory lock and the primary key of schema_migrations: no version is recorded twice, and no
-- call of Run ends with the lock held.
use multi_tenant_authorizati.Base.{
  ◌≡◌, inl, inr, String, false, some, List, [], ◌∷◌, str_eq, arith, Bool-cases, Option-cases, subst,
  sym,
}
use multi_tenant_authorizati.Db.Rows.{Unique}
use multi_tenant_authorizati.Migrate.{Store, World, Env, versions, is_recorded, with_table, run}
use multi_tenant_authorizati.Migrate.Refines.{migrate_one, migrate_all, listed, run-Refined}

module _ {D : Type 0} where
  -- Run returns without the lock, if it began without it, on every path.
  run_unlocks : (e : Env D) (w : World D) → w.locked ≡ false → (run e w).1.locked ≡ false
  unfolding run
  run_unlocks e w free = ground arith

  -- No version is there twice.
  abbrev pub UniqueVersions : Store D → Type 0
  UniqueVersions s = Unique (λ (a b : String). str_eq b a) (versions s.table)

  migrate_one-UniqueVersions :
      (e : Env D) (v : String) (s s' : Store D)
      → UniqueVersions s
      → migrate_one e v s ≡ some s'
      → UniqueVersions s'
  migrate_one-UniqueVersions e v s s' u h = elim (Bool-cases (is_recorded v s)) [
    | inl old ↦
        let same : versions s.table ≡ versions s'.table = ground arith in
        subst (Unique (λ (a b : String). str_eq b a)) same u
    | inr new ↦
        let grown : v ∷ versions s.table ≡ versions s'.table = ground arith in
        subst (Unique (λ (a b : String). str_eq b a)) grown (new, u)
  ]

  migrate_all-UniqueVersions :
      (e : Env D) (vs : List String) (s s' : Store D)
      → UniqueVersions s
      → migrate_all e vs s ≡ some s'
      → UniqueVersions s'
  unfolding migrate_all
  migrate_all-UniqueVersions e [] s s' u h =
      let same : versions s.table ≡ versions s'.table = ground arith in
      subst (Unique (λ (a b : String). str_eq b a)) same u
  migrate_all-UniqueVersions e (v ∷ vs) s s' u h = elim (Option-cases (migrate_one e v s)) [
    | inl bad ↦ absurd (ground arith)
    | inr (s₁, one) ↦
        migrate_all-UniqueVersions e vs s₁ s' (migrate_one-UniqueVersions e v s s₁ u one)
          (ground arith)
  ]

  -- Run records no version twice, whichever of its calls fail.
  run-UniqueVersions :
      (e : Env D) (w : World D) → UniqueVersions w.store → UniqueVersions (run e w).1.store
  run-UniqueVersions e w u = elim (run-Refined e w) [
    | inl (r, h) ↦ migrate_all-UniqueVersions e (listed e) (with_table w.store) _ u h
    | inr (x, r, inl h) ↦ subst UniqueVersions (sym h) u
    | inr (x, r, inr (ds, rest, split, h)) ↦
        migrate_all-UniqueVersions e ds (with_table w.store) _ u h
  ]
