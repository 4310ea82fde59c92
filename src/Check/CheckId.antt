-- ===== src/Check/CheckId.antt =====
-- src/check/store.ts: the test /^chk_[0-9a-f]{32}$/ of `receipt`.
use critalarm_server.Prelude.{ℕ, zero, suc, ◌==◌, leb, Bool, true, false, ◌&&◌, ◌||◌}
use Prim.Native.Char.{Char, code}
use Prim.Native.String.{String, [], ◌∷◌}

-- [0-9a-f]
abbrev pub is_hex : Char → Bool
is_hex c = (leb 48 (code c) && leb (code c) 57) || (leb 97 (code c) && leb (code c) 102)

-- [0-9a-f]{n}$
unfoldable pub all_hex : ℕ → String → Bool
all_hex zero [] = true
all_hex (suc n) (c ∷ s) = is_hex c && all_hex n s
all_hex _ _ = false

unfoldable pub is_check_id : String → Bool
is_check_id (c ∷ h ∷ k ∷ u ∷ s) =
    (code c == 99) && (code h == 104) && (code k == 107) && (code u == 95) && all_hex 32 s
is_check_id _ = false
