-- ===== src/Domain/Role.antt =====
-- crates/north-domain/src/role.rs: roles and the central permission rules.
use north.Common.{◌≡◌, ◌↔◌, Bool, true, false, Result, ok, err, if◌then◌else◌, arith}

pub data Role : Type 0 where
  owner admin requirement_manager requester : Role

abbrev pub role_eq : Role → Role → Bool
role_eq owner owner = true
role_eq admin admin = true
role_eq requirement_manager requirement_manager = true
role_eq requester requester = true
role_eq _ _ = false

unfoldable pub can_review : Role → Bool
can_review owner = true
can_review admin = true
can_review requirement_manager = true
can_review requester = false

unfoldable pub can_administer : Role → Bool
can_administer owner = true
can_administer admin = true
can_administer _ = false

pub data RoleError : Type 0 where
  not_authorized owner_grant_requires_owner self_modification : RoleError

-- The `match` on the actor.
assign_by : Role → Role → Result (Unit {0}) RoleError
assign_by owner _ = ok tt
assign_by admin owner = err owner_grant_requires_owner
assign_by admin _ = ok tt
assign_by _ _ = err not_authorized

unfoldable pub assign_role : Role → Bool → Role → Result (Unit {0}) RoleError
unfolding assign_by
assign_role actor actor_is_target new_role =
    if actor_is_target then err self_modification else assign_by actor new_role

-- An assignment is allowed exactly if the actor is not the target, may administer the instance,
-- and is an owner where the new role is owner.
pub assign_role_ok_iff :
    (actor : Role) (actor_is_target : Bool) (new_role : Role)
    → (assign_role actor actor_is_target new_role ≡ ok tt) ↔ (
        (actor_is_target ≡ false)
        × (can_administer actor ≡ true)
        × (new_role ≡ owner → actor ≡ owner))
unfolding assign_role can_administer
assign_role_ok_iff actor t new_role = (λ h. ground arith, λ h. ground (arith, h))
