-- ===== src/Fs/Probe/Tests.antt =====
-- A probe on a drive that never fails, and the theorem there.
use flopnix.Base.{ℕ, none, []}
use flopnix.Fs.Drive.{SectorBytes}
use flopnix.Fs.Drive.Sample.{memory_drive, memory_drive-IsDrive, one_file, one_file-IsVolume}
use flopnix.Fs.Probe.{probe}
use flopnix.Fs.Probe.Laws.{Probed, probe-Probed}

abbrev blank : ℕ → SectorBytes
blank j = []

probe-Probed_example :
    Probed memory_drive memory_drive-IsDrive 369 2 one_file blank
      (probe memory_drive 369 2 none one_file blank)
probe-Probed_example =
    probe-Probed memory_drive memory_drive-IsDrive 369 2 none one_file blank one_file-IsVolume
