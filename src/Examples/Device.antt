-- ===== src/Examples/Device.antt =====
-- The theorems of the device table at concrete entries.
use s5fs.Base.{
  ℕ, ◌*◌, ◌≡◌, refl, none, some, List, [], ◌∷◌, ◌++◌, if◌then◌else◌, All, codes, same_caseless,
  has_prefix, split_at, skip_space, drop_space, first_word, read_digits, strtoul, strtoul_10, words,
}
use s5fs.Device.Table.{rel_v7, rel_210, DiskDev, builtin}
use s5fs.Device.Config.{
  load_user, merge, commit, set_key, section, read_line, read_lines, trim, read_parts, scan_part,
  part_ok, release_parse,
}
use s5fs.Device.Select.{
  ensure_loaded, device_find, find_part, device_partition, device_resolve_part,
}
use s5fs.Device.Lookup.{device_find-merge}
use s5fs.Device.Sound.{IsDevice, ensure_loaded-IsDevice}

abbrev custom : DiskDev
custom = record {
  name = codes "RK05";
  desc = none;
  blocks = 5000;
  since = rel_v7;
  until = rel_210;
  parts = none;
}

device_find-merge_example : device_find (merge custom builtin) (codes "Rk05") ≡ (
    if same_caseless (codes "Rk05") (codes "RK05")
    then some custom
    else device_find builtin (codes "Rk05"))
device_find-merge_example = device_find-merge custom builtin (codes "Rk05")

-- A file with a size in octal and two partitions, one of them past `h`.
abbrev file : List (List ℕ)
file = codes "[mysmd]" ∷ codes "  blocks = 0100 " ∷ codes "partitions = a:0:40,x:1:2" ∷ []

mysmd :
    ensure_loaded (some file)
    ≡ builtin
      ++ ((record {
        name = codes "mysmd";
        desc = some (codes "(user-defined)");
        blocks = 64;
        since = rel_v7;
        until = rel_210;
        parts = some ((record { letter = b'a'; start = 0; len = 40 }) ∷ []);
      })
          ∷ [])
unfolding ensure_loaded load_user read_lines commit read_line trim drop_space skip_space split_at
    section set_key same_caseless strtoul read_digits merge read_parts words scan_part strtoul_10
    first_word has_prefix part_ok release_parse
mysmd = refl

ensure_loaded-IsDevice_example : All IsDevice (ensure_loaded (some file))
ensure_loaded-IsDevice_example = ensure_loaded-IsDevice (some file)

part_b :
    device_resolve_part (ensure_loaded none) (some (codes "RK07")) b'b' none
    ≡ some (5940 * 512, 2376)
unfolding device_resolve_part ensure_loaded device_find device_partition find_part same_caseless
part_b = refl
