-- ===== src/Tests/Configs.antt =====
-- The sample configuration, as src/config decides by it.
use gravelbox.Base.{none, ◌≡◌, Bytes, [], ◌∷◌, codes, true, some, All, length, ◌⊎◌, ◌↔◌, ok, arith}
use gravelbox.Config.Hex.{hex2bytes, to_hex, hex2bytes-to_hex}
use gravelbox.Config.FileConfig.{ask, get_action, hash_size, verify_signature}
use gravelbox.Config.Rules.{FirstMatch, Unmatched, get_action_cases}
use gravelbox.Config.Password.{verify_signature_iff}
use gravelbox.Tests.Sample.{libraries, config, mac}

get_action_cases_example :
    FirstMatch libraries
      (codes "fork()")
      config.action_groups
      (get_action libraries config (codes "fork()"))
    ⊎ (All (λ g. Unmatched libraries (codes "fork()") g.patterns) config.action_groups
        × (get_action libraries config (codes "fork()") ≡ ask))
get_action_cases_example = get_action_cases libraries config (codes "fork()")

verify_signature_iff_example : ((verify_signature libraries config (codes "k")).0 ≡ ok true) ↔ (
    (sig : Bytes) × (some (mac (codes "k") (codes "rules")) ≡ some sig)
    × (libraries.read_error config.signature ≡ none)
    × (length sig ≡ hash_size)
    × (some (mac (codes "k") (codes "rules")) ≡ some sig))
verify_signature_iff_example = verify_signature_iff libraries config (codes "k")

abbrev two_bytes : Bytes
two_bytes = 10 ∷ 255 ∷ []

hex2bytes-to_hex_example : hex2bytes (to_hex two_bytes) ≡ some two_bytes
hex2bytes-to_hex_example = hex2bytes-to_hex two_bytes (ground arith)
