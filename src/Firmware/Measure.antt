-- ===== src/Firmware/Measure.antt =====
-- measure.js, `ovmf_measure`: the table of an image, and the measurement for the mode of the page.
use sylica.Base.{List, Result, ok, ◌>>=◌, ℕ}
use sylica.Launch.Snp.{Config}
use sylica.Firmware.{Table, footer_table}
use sylica.Firmware.Sev.{ovmf_measure_snp}
use sylica.Firmware.Tdvf.{TdxConfig, ovmf_measure_tdx}

-- `mode`
pub data Mode : Type 0 where
  snp tdx : Mode

-- What `ovmf_measure` returns.
pub data FirmwareMeasurement : Type 0 where
  measured_snp : Config → FirmwareMeasurement
  measured_tdx : TdxConfig → FirmwareMeasurement

-- `mode === "snp" ? ovmf_measure_snp(table, data) : ovmf_measure_tdx(table, data)`
unfoldable pub measure_table :
    (List ℕ → List ℕ) → Mode → Table → List ℕ → Result FirmwareMeasurement
measure_table sha384 snp table data_bytes = do
  config ← ovmf_measure_snp sha384 table data_bytes
  ok (measured_snp config)
measure_table sha384 tdx table data_bytes = do
  config ← ovmf_measure_tdx sha384 table data_bytes
  ok (measured_tdx config)

-- `ovmf_measure(mode, data)`
unfoldable pub ovmf_measure : (List ℕ → List ℕ) → Mode → List ℕ → Result FirmwareMeasurement
unfolding measure_table
ovmf_measure sha384 mode data_bytes = do
  table ← footer_table data_bytes
  measure_table sha384 mode table data_bytes
