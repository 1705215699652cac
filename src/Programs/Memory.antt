-- ===== src/Programs/Memory.antt =====
-- internal/sysinfo/memory.go: the peak of the memory that was used, by what the files hold; none is a
-- file that cannot be read. `rusage` is the answer of getrusage, and `linux` tells the platform.
use s3nitor.Prelude.{ℕ, ◌+◌, ◌*◌, String, Bool, Option, none, some, List, [], ◌∷◌, if◌then◌else◌}
use s3nitor.Prelude.Int.{ℤ, pos, negsuc, wrap64}
use s3nitor.Scanner.{wrapped}
use s3nitor.Fallible.{Try, ok, err}
use s3nitor.Bytes.{codes, trim_space, has_prefix, split, fields}
use s3nitor.Config.Getters.{atoi}

-- The product with 1024, as an int64.
unfoldable kibibytes : ℤ → ℤ
unfolding wrap64
kibibytes (pos n) = wrap64 (pos (n * 1024))
kibibytes (negsuc n) = wrap64 (negsuc (n * 1024 + 1023))

unfoldable parse_cgroup_peak : List ℕ → Option ℤ
unfolding atoi trim_space
parse_cgroup_peak raw = atoi (trim_space raw)

-- The files in the order in which they are tried.
unfoldable read_cgroup_peak : List (Option (List ℕ)) → Option ℤ
unfolding parse_cgroup_peak
read_cgroup_peak [] = none
read_cgroup_peak (none ∷ files) = read_cgroup_peak files
read_cgroup_peak (some raw ∷ files) =
    let rest = read_cgroup_peak files in
    elim (parse_cgroup_peak raw) [ none ↦ rest | some v ↦ some v ]

unfoldable hwm_value : List (List ℕ) → Option ℤ
unfolding atoi kibibytes
hwm_value [] = none
hwm_value (name ∷ []) = none
hwm_value (name ∷ value ∷ words) = elim (atoi value) [
  | none ↦ none
  | some kib ↦ some (kibibytes kib)
]

unfoldable hwm_in : List (List ℕ) → Option ℤ
unfolding has_prefix fields hwm_value
hwm_in [] = none
hwm_in (line ∷ lines) =
    let rest = hwm_in lines in
    if has_prefix (codes "VmHWM:") line then hwm_value (fields line) else rest

unfoldable parse_vm_hwm : List ℕ → Option ℤ
unfolding hwm_in split
parse_vm_hwm status = hwm_in (split b'\n' status)

unfoldable read_vm_hwm : Option (List ℕ) → Option ℤ
unfolding parse_vm_hwm
read_vm_hwm none = none
read_vm_hwm (some raw) = parse_vm_hwm raw

unfoldable max_rss_bytes : Bool → ℤ → ℤ
unfolding kibibytes
max_rss_bytes linux maxrss = if linux then kibibytes maxrss else maxrss

unfoldable peak_rss : List (Option (List ℕ)) → Option (List ℕ) → Bool → Try ℤ → Try (ℤ × String)
unfolding read_cgroup_peak read_vm_hwm max_rss_bytes
peak_rss cgroup_files status linux rusage = elim (read_cgroup_peak cgroup_files) [
  | some b ↦ ok (b, "cgroup")
  | none ↦ elim (read_vm_hwm status) [
    | some b ↦ ok (b, "VmHWM")
    | none ↦ elim rusage [
      | ok maxrss ↦ ok (max_rss_bytes linux maxrss, "getrusage")
      | err e ↦ err (wrapped "no peak memory source available: " e)
    ]
  ]
]
