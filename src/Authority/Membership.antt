-- ===== src/Authority/Membership.antt =====
-- `verify_membership` of membership.py.
pub mod Roster
use peer_application_runtime.Base.{
  ℕ, List, [], ◌∷◌, ◌++◌, map, Bool, true, false, ◌&&◌, ◌||◌, Option, none, some, leb, ◌==◌,
  if◌then◌else◌, length,
}
use peer_application_runtime.Base.Bytes.{Bytes, bytes_eq}
use peer_application_runtime.Base.Text.{str_lt}
use peer_application_runtime.Base.Fallible.{done, demand, ◌>>=◌, ◌>>◌}
use peer_application_runtime.Authority.Control.{
  Outcome, schema_invalid, resource_blocked, membership_layout, membership_order, membership_root,
  Member, Role, reader, writer, Services, parse,
}

abbrev pub page_entries : ℕ
page_entries = 64

abbrev pub max_pages : ℕ
max_pages = 4

pub record Membership : Type 0 where
  pub root : Bytes
  pub pages : List Bytes
  pub members : List Member

abbrev pub has_content : Role → Bool
has_content reader = true
has_content writer = true
has_content _ = false

-- `content_members`.
unfoldable pub content_members : List Member → List Member
content_members [] = []
content_members (m ∷ ms) = if has_content m.role then m ∷ content_members ms else content_members ms

abbrev pub follows : Option Bytes → Bytes → Bool
follows none id = true
follows (some previous) id = str_lt previous id

-- The loop over the entries of a page; the result is `previous`.
unfoldable pub check_order : Option Bytes → List Member → Outcome (Option Bytes)
check_order previous [] = done previous
check_order previous (m ∷ ms) = do
  demand (follows previous m.device_id) membership_order
  check_order (some m.device_id) ms

abbrev pub is_last : List Bytes → Bool
is_last [] = true
is_last (p ∷ ps) = false

module _ (v : Services) where
  -- The loop over the pages; the result is `entries`.
  unfoldable pub read_pages : Option Bytes → List Bytes → Outcome (List Member)
  read_pages previous [] = done []
  read_pages previous (raw ∷ rest) = do
    page ← parse v.read_page 32768 raw
    demand
        (leb 1 (length page)
          && leb (length page) page_entries
          && (is_last rest || length page == page_entries))
        membership_layout
    previous' ← check_order previous page
    more ← read_pages previous' rest
    done (page ++ more)

  unfoldable pub verify_membership : Bytes → List Bytes → Outcome Membership
  verify_membership expected pages = do
    demand (length expected == 32) schema_invalid
    demand (leb (length pages) max_pages) resource_blocked
    entries ← read_pages none pages
    demand (bytes_eq (v.root_of (map v.page_id pages)) expected) membership_root
    done (record { root = v.root_of (map v.page_id pages); pages = pages; members = entries })
