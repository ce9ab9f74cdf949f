-- ===== src/Perf/Attr.antt =====
-- `EventAttr` of pkg/sys/perf/types.go, the kernel's `struct perf_event_attr`, and how it is written.
pub mod Flags
pub mod Write
use Prim.Native.Nat.{bit_or}
use capsule.Prelude.{
  ℕ, zero, suc, ◌^◌, List, [], ◌∷◌, ◌++◌, Bool, true, false, not, ◌&&◌, ◌||◌, ltb, ◌==◌, bit_and,
  if◌then◌else◌,
}
use capsule.Prelude.Int.{ℤ, to_u64}
use capsule.Prelude.Outcome.{Outcome, ok, err, guard, ◌>>=◌, ◌>>◌}
use capsule.Perf.Decode.RoundTrip.{bytes_of}

pub record EventAttr : Type 0 where
  pub type : ℕ
  pub size : ℕ
  pub config : ℕ
  pub sample_period : ℕ
  pub sample_freq : ℕ
  pub sample_type : ℕ
  pub read_format : ℕ
  pub disabled : Bool
  pub inherit : Bool
  pub pinned : Bool
  pub exclusive : Bool
  pub exclusive_user : Bool
  pub exclusive_kernel : Bool
  pub exclusive_hv : Bool
  pub exclusive_idle : Bool
  pub mmap : Bool
  pub comm : Bool
  pub freq : Bool
  pub inherit_stat : Bool
  pub enable_on_exec : Bool
  pub task : Bool
  pub watermark : Bool
  pub precise_ip : ℕ
  pub mmap_data : Bool
  pub sample_id_all : Bool
  pub exclude_host : Bool
  pub exclude_guest : Bool
  pub exclude_callchain_kernel : Bool
  pub exclude_callchain_user : Bool
  pub mmap2 : Bool
  pub comm_exec : Bool
  pub use_clock_id : Bool
  pub context_switch : Bool
  pub wakeup_events : ℕ
  pub wakeup_watermark : ℕ
  pub bp_type : ℕ
  pub bp_addr : ℕ
  pub config1 : ℕ
  pub bp_len : ℕ
  pub config2 : ℕ
  pub branch_sample_type : ℕ
  pub sample_regs_user : ℕ
  pub sample_stack_user : ℕ
  pub clock_id : ℤ
  pub sample_regs_intr : ℕ
  pub aux_watermark : ℕ
  pub sample_max_stack : ℕ

pub data WriteError : Type 0 where
  sample_union precise_ip_range wakeup_union : WriteError

-- `if b { bitfield |= 1 << k }`
unfoldable pub flag : Bool → ℕ → ℕ → ℕ
flag true k bits = bit_or bits (2 ^ k)
flag false k bits = bits

-- The bits up to `watermark`. The bit of `exclusive_idle`, the seventh, is not among them.
unfoldable pub low_flags : EventAttr → ℕ
unfolding flag
low_flags ea =
    let a = flag ea.exclusive 3 (flag ea.pinned 2 (flag ea.inherit 1 (flag ea.disabled 0 0))) in
    let b = flag ea.exclusive_hv 6 (flag ea.exclusive_kernel 5 (flag ea.exclusive_user 4 a)) in
    let c = flag ea.inherit_stat 11 (flag ea.freq 10 (flag ea.comm 9 (flag ea.mmap 8 b))) in
    flag ea.watermark 14 (flag ea.task 13 (flag ea.enable_on_exec 12 c))

-- `x & mask != 0`
unfoldable pub has : ℕ → ℕ → Bool
has x mask = not (bit_and x mask == 0)

unfoldable pub high_flags : EventAttr → ℕ → ℕ
unfolding flag has
high_flags ea bits =
    let a = flag (has ea.precise_ip 2) 16 (flag (has ea.precise_ip 1) 15 bits) in
    let b = flag ea.exclude_host 19 (flag ea.sample_id_all 18 (flag ea.mmap_data 17 a)) in
    let c = flag ea.exclude_callchain_kernel 21 (flag ea.exclude_guest 20 b) in
    let d = flag ea.comm_exec 24 (flag ea.mmap2 23 (flag ea.exclude_callchain_user 22 c)) in
    flag ea.context_switch 26 (flag ea.use_clock_id 25 d)

-- The bytes of the fields, the lowest byte first.
unfoldable pub layout : EventAttr → List ℕ
unfolding low_flags high_flags bytes_of
layout ea =
    bytes_of 4 ea.type
    ++ bytes_of 4 ea.size
    ++ bytes_of 8 ea.config
    ++ bytes_of 8 (if ea.freq then ea.sample_freq else ea.sample_period)
    ++ bytes_of 8 ea.sample_type
    ++ bytes_of 8 ea.read_format
    ++ bytes_of 8 (high_flags ea (low_flags ea))
    ++ bytes_of 4 (if ea.watermark then ea.wakeup_watermark else ea.wakeup_events)
    ++ bytes_of 4 ea.bp_type
    ++ bytes_of 8 (if ea.config1 == 0 then ea.bp_addr else ea.config1)
    ++ bytes_of 8 (if ea.config2 == 0 then ea.bp_len else ea.config2)
    ++ bytes_of 8 ea.branch_sample_type
    ++ bytes_of 8 ea.sample_regs_user
    ++ bytes_of 4 ea.sample_stack_user
    ++ bytes_of 4 (to_u64 ea.clock_id)
    ++ bytes_of 8 ea.sample_regs_intr
    ++ bytes_of 4 ea.aux_watermark
    ++ bytes_of 2 ea.sample_max_stack
    ++ bytes_of 2 0

-- The layout, or the first error.
unfoldable pub write : EventAttr → Outcome WriteError (List ℕ)
unfolding layout
write ea = do
  guard (not (ea.freq && not (ea.sample_period == 0) || not ea.freq && not (ea.sample_freq == 0)))
      WriteError.sample_union
  guard (not (ltb 3 ea.precise_ip)) WriteError.precise_ip_range
  guard
      (not (
        ea.watermark && not (ea.wakeup_events == 0)
        || not ea.watermark && not (ea.wakeup_watermark == 0)))
      WriteError.wakeup_union
  ok (layout ea)
