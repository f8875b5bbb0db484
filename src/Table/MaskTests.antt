-- ===== src/Table/MaskTests.antt =====
-- An example of the mask of a prefix.
use nikss.Base.{◌+◌, ◌^◌, ◌≡◌, arith}
use nikss.Bpf.Types.{ok}
use nikss.Struct.Buffer.{Bytes}
use nikss.Struct.Constructed.{zeros}
use nikss.Counter.Value.{of_bytes}
use nikss.Table.Masks.{lpm_prefix_to_mask}
use nikss.Table.MaskValue.{lpm_prefix_to_mask_lem}

mask_example :
    (mask : Bytes) × (lpm_prefix_to_mask 0 4 12 4 (zeros 4) ≡ ok mask)
    × (of_bytes mask + 2 ^ 20 ≡ 2 ^ 32)
mask_example = lpm_prefix_to_mask_lem 4 12 (omega arith)
