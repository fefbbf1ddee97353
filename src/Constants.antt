-- ===== src/Constants.antt =====
-- web/nitepr5_core/constants.py: the caps, ports, compare ids and engine bits.
use nite_pr.Base.{ℕ, ◌*◌, List, [], ◌∷◌}
use nite_pr.Base.Text.{Text, text}

abbrev pub ps5debug_port : ℕ
ps5debug_port = 744

abbrev pub plugin_port : ℕ
plugin_port = 1745

abbrev pub hex_peephole_default : ℕ
hex_peephole_default = 512

abbrev pub read_max : ℕ
read_max = 4096

abbrev pub write_max : ℕ
write_max = read_max

abbrev pub watch_max : ℕ
watch_max = 64

-- The `frozenset` of the watch sizes.
abbrev pub watch_sizes : List ℕ
watch_sizes = 1 ∷ 2 ∷ 4 ∷ 8 ∷ []

abbrev pub watch_size_default : ℕ
watch_size_default = 4

abbrev pub freeze_max : ℕ
freeze_max = 32

abbrev pub freeze_size_min : ℕ
freeze_size_min = 1

abbrev pub freeze_size_max : ℕ
freeze_size_max = 8

abbrev pub results_max : ℕ
results_max = 256

abbrev pub scan_value_uint32 : ℕ
scan_value_uint32 = 4

abbrev pub scan_align_u32 : ℕ
scan_align_u32 = 4

abbrev pub scan_regions_default : Text
scan_regions_default = text "writable_cached"

abbrev pub scan_compare_exact : ℕ
scan_compare_exact = 0

abbrev pub scan_compare_increased : ℕ
scan_compare_increased = 5

abbrev pub scan_compare_decreased : ℕ
scan_compare_decreased = 7

abbrev pub scan_compare_changed : ℕ
scan_compare_changed = 9

abbrev pub scan_compare_unchanged : ℕ
scan_compare_unchanged = 10

abbrev pub scan_compare_unknown : ℕ
scan_compare_unknown = 11

abbrev pub tse_aliasing : ℕ
tse_aliasing = 0x02

abbrev pub tse_server_resident : ℕ
tse_server_resident = 0x04

abbrev pub tse_snapshot : ℕ
tse_snapshot = 0x08

abbrev pub tse_snapshot_segments : ℕ
tse_snapshot_segments = 0x10

abbrev pub tse_rescan_aliasing : ℕ
tse_rescan_aliasing = 0x200

abbrev pub ts_use_aliasing : ℕ
ts_use_aliasing = 0x01

abbrev pub ts_server_resident : ℕ
ts_server_resident = 0x02

abbrev pub ts_snapshot : ℕ
ts_snapshot = 0x04

abbrev pub ts_snapshot_segments : ℕ
ts_snapshot_segments = 0x10

abbrev pub ts_parallel_compare : ℕ
ts_parallel_compare = 0x80

abbrev pub scan_regions_probe_bytes : ℕ
scan_regions_probe_bytes = 1

abbrev pub scan_segment_min : ℕ
scan_segment_min = 1

abbrev pub scan_segment_max : ℕ
scan_segment_max = 1_048_576

abbrev pub snap_bitmap_max : ℕ
snap_bitmap_max = 448 * 1024 * 1024

abbrev pub uncached_map_names : List Text
uncached_map_names = text "SceGnm" ∷ []

abbrev pub prot_read : ℕ
prot_read = 1

abbrev pub prot_write : ℕ
prot_write = 2

abbrev pub prot_exec : ℕ
prot_exec = 4

abbrev pub eboot_name : Text
eboot_name = text "eboot.bin"

abbrev pub executable_map_name : Text
executable_map_name = text "executable"
