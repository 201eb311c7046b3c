-- ===== src/Util/Log.antt =====
-- The log and the trace of src/util.c: two buffers that drop the older half when they are full. A
-- buffer is the list of the bytes before its 0; `klog_len` and `trace_len` are its length. The line
-- of `ktrace` comes formatted by `kfmt`; `trace_dirty`, which it sets, is a flag of its readers.
pub mod Laws
mod Tests
use flopnix.Base.{
  ℕ, ◌+◌, ◌-◌, ◌*◌, ◌%◌, ◌^◌, Bool, Option, none, some, List, [], ◌∷◌, ◌++◌, ltb, leb, ◌==◌,
  if◌then◌else◌, length, take, drop,
}

-- Half of `sizeof klog_buf`, and of `sizeof trace_buf`.
abbrev pub log_half : ℕ
log_half = 1024

abbrev pub trace_half : ℕ
trace_half = 2048

-- What `klog` and `ktrace` do to a buffer of `2 * half` bytes: if `n` bytes and the 0 do not fit
-- behind those held, only the last `half` are kept.
abbrev pub make_room : ℕ → ℕ → List ℕ → List ℕ
make_room half n held =
    if ltb (2 * half) (length held + n + 1) then drop (length held - half) held else held

-- `klog`.
pub klog : List ℕ → List ℕ → List ℕ
klog s held =
    let n = if ltb (log_half - 1) (length s) then log_half - 1 else length s in
    make_room log_half n held ++ take n s

-- `klog_read` and `trace_read`, into `cap` bytes: what is copied before the 0.
pub read_log : ℕ → List ℕ → List ℕ
read_log cap held =
    if cap == 0
    then []
    else take (if ltb (length held) (cap - 1) then length held else cap - 1) held

pub record Trace : Type 0 where
  pub held : List ℕ
  pub seq : ℕ

-- `ktrace`, with the formatted line.
pub ktrace : List ℕ → Trace → Trace
ktrace line t =
    let n = if ltb trace_half (length line) then trace_half else length line in
    record { held = make_room trace_half n t.held ++ take n line; seq = (t.seq + n) % 2 ^ 32 }

-- `trace_slice_read`.
pub trace_slice_read : ℕ → ℕ → Trace → List ℕ
trace_slice_read off count t =
    if leb (length t.held) off
    then []
    else take (if ltb (length t.held - off) count then length t.held - off else count)
        (drop off t.held)
