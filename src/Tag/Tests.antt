-- ===== src/Tag/Tests.antt =====
-- The theorems on tags at a small table.
use open_help_desk.Base.{ℕ, ◌+◌, ◌≡◌, refl, ◌&&◌, none, [], ◌∷◌, Uuid, Time, leb, if◌then◌else◌}
use open_help_desk.Base.Table.{find_row}
use open_help_desk.Base.Text.{codes, text_eq, trim_space, to_lower}
use open_help_desk.Exec.{World, calm, ok, fresh, now, raise_if, try, pure, query, statement, ◌>>=◌}
use open_help_desk.Tag.{Tag}
use open_help_desk.Tag.Store
use open_help_desk.Tag.Store.{TagDb, named}
use open_help_desk.Tag.Service.{normal, resolve}
use open_help_desk.Tag.Names.{resolve-resolve}

abbrev clock : ℕ → Time
clock n = n

abbrev ids : ℕ → Uuid
ids n = n

-- The capital letters of ASCII
abbrev ascii_lower : ℕ → ℕ
ascii_lower c = if leb 65 c && leb c 90 then c + 32 else c

abbrev printer : Tag
printer = record { id = 4; name = codes "printer"; created_at = 0; deleted_at = none }

abbrev desk : World TagDb
desk = record { db = record { tags = printer ∷ []; ticket_tags = [] }; calls = 0 }

abbrev vpn : Tag
vpn = record { id = 1; name = codes "vpn"; created_at = 2; deleted_at = none }

resolve-resolve_example :
    (resolve ascii_lower
      (codes "VPN ")
      (calm clock ids)
      (resolve ascii_lower (codes "Vpn") (calm clock ids) desk).1).0
    ≡ ok vpn
unfolding resolve normal trim_space to_lower text_eq Store.get_by_name Store.create find_row try
    pure raise_if fresh now query statement ◌>>=◌
resolve-resolve_example =
    resolve-resolve ascii_lower (codes "Vpn") (calm clock ids) desk vpn (codes "VPN ") clock ids
      refl refl
