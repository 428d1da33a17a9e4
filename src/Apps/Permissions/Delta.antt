-- ===== src/Apps/Permissions/Delta.antt =====
-- What permissionDelta reports.
use messages.Base.{not, ◌&&◌, some, List, [], ◌∷◌, ◌≡◌, refl, arith, Text, text_eq_iff}
use messages.Apps.Types.{Release}
use messages.Apps.Permissions.Sort.{
  mem, mem-sort, mem-compact, IsAscending, compact-sort-IsAscending,
}
use messages.Apps.Permissions.{
  manifest_permissions, missing_from, added_permissions, permission_delta,
}

mem-missing_from :
    (a : Text) (set xs : List Text) → mem a (missing_from set xs) ≡ (mem a xs && not (mem a set))
unfolding missing_from mem
mem-missing_from a set [] = refl
mem-missing_from a set (x ∷ xs) = ground (arith, mem-missing_from a set xs, text_eq_iff a x)

pub mem-added_permissions :
    (a : Text) (r s : Release)
    → mem a (added_permissions r.manifest s.manifest)
      ≡ (mem a (manifest_permissions s.manifest) && not (mem a (manifest_permissions r.manifest)))
unfolding added_permissions
mem-added_permissions a r s = rw (mem-compact, mem-sort, mem-missing_from)

-- Between two releases the added permissions are those of the second alone, the removed ones
-- those of the first alone, and both lists ascend without duplicates.
pub permission_delta_lem :
    (r s : Release)
    → ((a : Text)
        → (mem a (permission_delta (some r) (some s)).0 ≡ (
            mem a (manifest_permissions s.manifest)
            && not (mem a (manifest_permissions r.manifest))))
          × (mem a (permission_delta (some r) (some s)).1 ≡ (
              mem a (manifest_permissions r.manifest)
              && not (mem a (manifest_permissions s.manifest)))))
      × IsAscending (permission_delta (some r) (some s)).0
      × IsAscending (permission_delta (some r) (some s)).1
unfolding permission_delta
permission_delta_lem r s = (
  λ a. (mem-added_permissions a r s, mem-added_permissions a s r),
  unfold added_permissions in compact-sort-IsAscending _,
  unfold added_permissions in compact-sort-IsAscending _,
)
