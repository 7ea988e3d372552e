-- ===== src/Relay/Roles.antt =====
-- crates/relay/src/auth/middleware.rs: the roles of a workspace's members, and what a lookup of one
-- in the membership store (a database, a parameter of the model) gives.
use scriptum.Prelude.{ℕ, Bool, Option, none, some, String, if◌then◌else◌, leb, ◌==◌, string_eq}
use scriptum.Prelude.Numbers.{Uuid}

pub data WorkspaceRole : Type 0 where
  viewer : WorkspaceRole
  editor : WorkspaceRole
  owner : WorkspaceRole

-- The derived order.
abbrev pub rank : WorkspaceRole → ℕ
rank viewer = 0
rank editor = 1
rank owner = 2

pub from_db_value : String → Option WorkspaceRole
from_db_value value =
    if value == "viewer"
    then some viewer
    else (if value == "editor"
        then some editor
        else (if value == "owner" then some owner else none))

abbrev pub allows : WorkspaceRole → WorkspaceRole → Bool
allows role required = leb (rank required) (rank role)

pub data RoleLookup : Type 0 where
  found : WorkspaceRole → RoleLookup
  missing : RoleLookup
  failed : RoleLookup

-- By workspace and user.
abbrev pub WorkspaceMembershipStore : Type 0
WorkspaceMembershipStore = Uuid → Uuid → RoleLookup
