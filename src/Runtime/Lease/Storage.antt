-- ===== src/Runtime/Lease/Storage.antt =====
-- What `save_lease` and `revoke_lease` do to the directory of leases.
use acds.Prelude.{
  ℕ, String, ◌≡◌, refl, false, none, some, List, [], ◌∷◌, ok, arith, eq_iff, eq_refl, str_eq,
  insert, lookup, lookup-insert,
}
use acds.Runtime.Artifacts.{Lease}
use acds.Runtime.Signer.{Crypto}
use acds.Runtime.Clock.{Platform}
use acds.Runtime.Lease.{Directory, find_lease, unlink, revoke_lease, check_lease_validity, revoked}

-- Each file is named after the lease it holds, and no name is there twice.
abbrev pub AreNamed : List (String × Lease) → Type 0
AreNamed [] = Unit
AreNamed ((n, l) ∷ files) = (l.lease_id ≡ n) × (lookup n files ≡ none) × AreNamed files

-- Among such files, looking for a lease by its id is looking for its file.
find_lease-lookup :
    (k : String) (files : List (String × Lease))
    → AreNamed files
    → find_lease k files ≡ (elim (lookup k files) [ none ↦ none | some l ↦ some (k, l) ])
unfolding find_lease lookup
find_lease-lookup k [] h = refl
find_lease-lookup k ((n, l) ∷ files) h =
    ground (arith, find_lease-lookup k files h.2, eq_iff l.lease_id k, eq_iff k n)

lookup-unlink_self :
    (k : String) (files : List (String × Lease)) → AreNamed files → lookup k (unlink k files) ≡ none
unfolding lookup unlink
lookup-unlink_self k [] h = refl
lookup-unlink_self k ((n, l) ∷ files) h =
    ground (arith, lookup-unlink_self k files h.2, eq_iff n k, eq_iff k n)

lookup-unlink_ne :
    (k j : String) (files : List (String × Lease))
    → str_eq k j ≡ false
    → lookup j (unlink k files) ≡ lookup j files
unfolding lookup unlink
lookup-unlink_ne k j [] e = refl
lookup-unlink_ne k j ((n, l) ∷ files) e =
    ground (arith, lookup-unlink_ne k j files e, eq_iff n k, eq_iff j n, eq_iff k j)

unlink-AreNamed :
    (k : String) (files : List (String × Lease)) → AreNamed files → AreNamed (unlink k files)
unfolding unlink
unlink-AreNamed k [] h = tt
unlink-AreNamed k ((n, l) ∷ files) h =
    ground (arith, unlink-AreNamed k files h.2, lookup-unlink_ne k n files, eq_iff n k, eq_iff k n)

insert-AreNamed :
    (l : Lease) (files : List (String × Lease))
    → AreNamed files
    → AreNamed (insert l.lease_id l files)
unfolding insert
insert-AreNamed l [] h = (refl, unfold lookup in refl, tt)
insert-AreNamed l ((n, m) ∷ files) h = ground (
  arith,
  insert-AreNamed l files h.2,
  lookup-insert l.lease_id n l files,
  eq_iff l.lease_id n,
  eq_iff n l.lease_id,
)

module _ (c : Crypto) (p : Platform) (now : ℕ) (lease_id reason : String) (dir : Directory) where
  abbrev after : Directory
  after = (revoke_lease c p now lease_id reason dir).1

  active-after :
      (l : Lease)
      → AreNamed dir.active
      → lookup lease_id dir.active ≡ some l
      → (after.active ≡ unlink lease_id dir.active)
        × (after.revoked_leases
            ≡ insert lease_id (record l { revocation_status = "revoked" }) dir.revoked_leases)
  unfolding revoke_lease
  active-after l h e = ground (arith, find_lease-lookup lease_id dir.active h)

  -- In a directory of active leases whose files are named after their leases, none of them twice: after
  -- `revoke_lease` found its lease, the lease is no longer active; it is stored as revoked,
  -- with its other fields kept, and is found revoked at every later check; every other active lease
  -- stays as it was. This holds also where signing the revocation event raises.
  pub revoke_lease-moves :
      (l : Lease)
      → AreNamed dir.active
      → lookup lease_id dir.active ≡ some l
      → (lookup lease_id after.active ≡ none)
        × (lookup lease_id after.revoked_leases ≡ some (record l { revocation_status = "revoked" }))
        × ((later : ℕ)
            → check_lease_validity p later (record l { revocation_status = "revoked" })
              ≡ ok revoked)
        × ((j : String) → str_eq lease_id j ≡ false → lookup j after.active ≡ lookup j dir.active)
  revoke_lease-moves l h e =
      let (gone, stored) = active-after l h e in
      (
        rw gone (lookup-unlink_self lease_id dir.active h),
        rw stored (rw lookup-insert (rw (eq_refl lease_id))),
        λ later. unfold check_lease_validity in refl,
        λ j ne. rw gone (lookup-unlink_ne lease_id j dir.active ne),
      )
