-- ===== src/Coordinator/MemberLimits.antt =====
-- The limits on the members of a space, as AclAddRecord reads them.
use any_sync_coordinator.Prelude.{
  String, Option, none, some, Option-cases, ◌||◌, first, if◌then◌else◌, ◌≡◌, inl, inr, subst, ◌==◌,
  ◌=ₛ◌, ℤ, arith,
}
use any_sync_coordinator.Outcome.{ok, pure, ◌>>=◌, >>=-reads}
use any_sync_coordinator.Docs.{World, StatusEntry, SpaceLimits, Limits}
use any_sync_coordinator.Docs.SpaceType
use any_sync_coordinator.Mongo.{Mongo, Documented}
use any_sync_coordinator.AccountLimit.{
  get_limits_by_space, limits_of_entry, get_limits, limits_by_default,
}
use any_sync_coordinator.Coordinator.{AclLimits}
use any_sync_coordinator.SpaceStatus.{status}
use any_sync_coordinator.SpaceStatus.Reads.{status-same}

abbrev pub member_limits : SpaceLimits → AclLimits
member_limits l = record {
  read_members = l.space_members_read;
  write_members = l.space_members_write;
}

abbrev owner_limits : SpaceLimits → Option Limits → AclLimits
owner_limits d none = record {
  read_members = d.space_members_read;
  write_members = d.space_members_write;
}
owner_limits d (some l) = record {
  read_members = l.space_members_read;
  write_members = l.space_members_write;
}

-- The members that a space may have: one in a personal and in a tech space, none in one between two
-- accounts, and in any other what is stored for its owner, or the defaults.
abbrev pub limits_for : SpaceLimits → World → StatusEntry → AclLimits
limits_for d w e =
    if e.type == SpaceType.personal || e.type == SpaceType.tech
    then record { read_members = 1; write_members = 1 }
    else if e.type == SpaceType.one_to_one
    then record { read_members = 0; write_members = 0 }
    else owner_limits d (first (λ l. l.identity =ₛ e.identity) w.account_limits)

module _ {m : Mongo} (law : Documented m) (d : SpaceLimits) (now : ℤ) (i : String) (w : World) where
  limits_of_entry-limits_for :
      (entry : StatusEntry) (limits : SpaceLimits)
      → (limits_of_entry m d now entry w).0 ≡ ok limits
      → member_limits limits ≡ limits_for d w entry
  unfolding limits_of_entry get_limits limits_by_default pure ◌>>=◌
  limits_of_entry-limits_for entry limits h =
      let mine = λ (l : Limits). l.identity =ₛ entry.identity in
      elim (Option-cases (first mine w.account_limits)) [
        | inl p ↦ ground (arith, p, law.find_one_lem Limits mine w.account_limits)
        | inr (l, p) ↦ ground (arith, p, law.find_one_lem Limits mine w.account_limits)
      ]

  pub get_limits_by_space-limits_for :
      (entry : StatusEntry) (limits : SpaceLimits)
      → (status m i w).0 ≡ ok entry
      → (get_limits_by_space m d now i w).0 ≡ ok limits
      → member_limits limits ≡ limits_for d w entry
  unfolding get_limits_by_space
  get_limits_by_space-limits_for entry limits read h =
      let (entry', p, _, h') = >>=-reads (status m i) _ w limits (status-same m w i) h in
      let same : entry' ≡ entry = cc (p, read) in
      limits_of_entry-limits_for entry limits
        (subst (λ e. (limits_of_entry m d now e w).0 ≡ ok limits) same h')
