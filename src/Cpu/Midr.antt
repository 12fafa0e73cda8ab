-- ===== src/Cpu/Midr.antt =====
-- The implementers and parts that bench/src/bench.c knows, and `midr_name`.
use cross_platform_benchmark.Prelude.{
  ℕ, zero, suc, ◌&&◌, ◌+◌, ◌-◌, ◌/◌, ◌%◌, ◌||◌, List, [], ◌∷◌, ◌++◌, Bytes, codes, ltb, ◌==◌,
  if◌then◌else◌, starts_with, take,
}

-- `midr_part_t` and `midr_impl_t`.
pub record MidrPart : Type 0 where
  pub part : ℕ
  pub name : Bytes

pub record MidrImpl : Type 0 where
  pub impl : ℕ
  pub vendor : Bytes
  pub parts : List MidrPart

abbrev at : ℕ → Bytes → MidrPart
at part name = record { part = part; name = name }

abbrev pub midr_arm : List MidrPart
midr_arm =
    at 0xd02 (codes "Cortex-A34")
    ∷ at 0xd03 (codes "Cortex-A53")
    ∷ at 0xd04 (codes "Cortex-A35")
    ∷ at 0xd05 (codes "Cortex-A55")
    ∷ at 0xd06 (codes "Cortex-A65")
    ∷ at 0xd07 (codes "Cortex-A57")
    ∷ at 0xd08 (codes "Cortex-A72")
    ∷ at 0xd09 (codes "Cortex-A73")
    ∷ at 0xd0a (codes "Cortex-A75")
    ∷ at 0xd0b (codes "Cortex-A76")
    ∷ at 0xd0c (codes "Neoverse-N1")
    ∷ at 0xd0d (codes "Cortex-A77")
    ∷ at 0xd0e (codes "Cortex-A76AE")
    ∷ at 0xd14 (codes "Cortex-R82AE")
    ∷ at 0xd15 (codes "Cortex-R82")
    ∷ at 0xd40 (codes "Neoverse-V1")
    ∷ at 0xd41 (codes "Cortex-A78")
    ∷ at 0xd42 (codes "Cortex-A78AE")
    ∷ at 0xd43 (codes "Cortex-A65AE")
    ∷ at 0xd44 (codes "Cortex-X1")
    ∷ at 0xd46 (codes "Cortex-A510")
    ∷ at 0xd47 (codes "Cortex-A710")
    ∷ at 0xd48 (codes "Cortex-X2")
    ∷ at 0xd49 (codes "Neoverse-N2")
    ∷ at 0xd4a (codes "Neoverse-E1")
    ∷ at 0xd4b (codes "Cortex-A78C")
    ∷ at 0xd4c (codes "Cortex-X1C")
    ∷ at 0xd4d (codes "Cortex-A715")
    ∷ at 0xd4e (codes "Cortex-X3")
    ∷ at 0xd4f (codes "Neoverse-V2")
    ∷ at 0xd80 (codes "Cortex-A520")
    ∷ at 0xd81 (codes "Cortex-A720")
    ∷ at 0xd82 (codes "Cortex-X4")
    ∷ at 0xd83 (codes "Neoverse-V3AE")
    ∷ at 0xd84 (codes "Neoverse-V3")
    ∷ at 0xd85 (codes "Cortex-X925")
    ∷ at 0xd87 (codes "Cortex-A725")
    ∷ at 0xd88 (codes "Cortex-A520AE")
    ∷ at 0xd89 (codes "Cortex-A720AE")
    ∷ at 0xd8a (codes "C1-Nano")
    ∷ at 0xd8b (codes "C1-Pro")
    ∷ at 0xd8c (codes "C1-Ultra")
    ∷ at 0xd8e (codes "Neoverse-N3")
    ∷ at 0xd8f (codes "Cortex-A320")
    ∷ at 0xd90 (codes "C1-Premium")
    ∷ []

abbrev pub midr_apple : List MidrPart
midr_apple =
    at 0x020 (codes "Icestorm-A14")
    ∷ at 0x021 (codes "Firestorm-A14")
    ∷ at 0x022 (codes "Icestorm-M1")
    ∷ at 0x023 (codes "Firestorm-M1")
    ∷ at 0x024 (codes "Icestorm-M1-Pro")
    ∷ at 0x025 (codes "Firestorm-M1-Pro")
    ∷ at 0x026 (codes "Thunder-M10")
    ∷ at 0x028 (codes "Icestorm-M1-Max")
    ∷ at 0x029 (codes "Firestorm-M1-Max")
    ∷ at 0x030 (codes "Blizzard-A15")
    ∷ at 0x031 (codes "Avalanche-A15")
    ∷ at 0x032 (codes "Blizzard-M2")
    ∷ at 0x033 (codes "Avalanche-M2")
    ∷ at 0x034 (codes "Blizzard-M2-Pro")
    ∷ at 0x035 (codes "Avalanche-M2-Pro")
    ∷ at 0x036 (codes "Sawtooth-A16")
    ∷ at 0x037 (codes "Everest-A16")
    ∷ at 0x038 (codes "Blizzard-M2-Max")
    ∷ at 0x039 (codes "Avalanche-M2-Max")
    ∷ []

abbrev pub midr_qcom : List MidrPart
midr_qcom =
    at 0x001 (codes "Oryon")
    ∷ at 0x201 (codes "Kryo")
    ∷ at 0x205 (codes "Kryo")
    ∷ at 0x211 (codes "Kryo")
    ∷ at 0x800 (codes "Falkor-V1/Kryo")
    ∷ at 0x801 (codes "Kryo-V2")
    ∷ at 0x802 (codes "Kryo-3XX-Gold")
    ∷ at 0x803 (codes "Kryo-3XX-Silver")
    ∷ at 0x804 (codes "Kryo-4XX-Gold")
    ∷ at 0x805 (codes "Kryo-4XX-Silver")
    ∷ at 0xc00 (codes "Falkor")
    ∷ at 0xc01 (codes "Saphira")
    ∷ []

abbrev pub midr_cavium : List MidrPart
midr_cavium =
    at 0x0a0 (codes "ThunderX")
    ∷ at 0x0a1 (codes "ThunderX-88XX")
    ∷ at 0x0a2 (codes "ThunderX-81XX")
    ∷ at 0x0a3 (codes "ThunderX-83XX")
    ∷ at 0x0af (codes "ThunderX2-99xx")
    ∷ at 0x0b0 (codes "OcteonTX2")
    ∷ at 0x0b1 (codes "OcteonTX2-98XX")
    ∷ at 0x0b2 (codes "OcteonTX2-96XX")
    ∷ at 0x0b3 (codes "OcteonTX2-95XX")
    ∷ at 0x0b4 (codes "OcteonTX2-95XXN")
    ∷ at 0x0b5 (codes "OcteonTX2-95XXMM")
    ∷ at 0x0b6 (codes "OcteonTX2-95XXO")
    ∷ at 0x0b8 (codes "ThunderX3-T110")
    ∷ []

abbrev pub midr_hisi : List MidrPart
midr_hisi =
    at 0xd01 (codes "TaiShan-v110")
    ∷ at 0xd02 (codes "TaiShan-v120")
    ∷ at 0xd40 (codes "Cortex-A76")
    ∷ at 0xd41 (codes "Cortex-A77")
    ∷ []

abbrev pub midr_nvidia : List MidrPart
midr_nvidia =
    at 0x000 (codes "Denver")
    ∷ at 0x003 (codes "Denver-2")
    ∷ at 0x004 (codes "Carmel")
    ∷ at 0x010 (codes "Olympus")
    ∷ []

abbrev pub midr_samsung : List MidrPart
midr_samsung =
    at 0x001 (codes "exynos-m1")
    ∷ at 0x002 (codes "exynos-m3")
    ∷ at 0x003 (codes "exynos-m4")
    ∷ at 0x004 (codes "exynos-m5")
    ∷ []

abbrev pub midr_ampere : List MidrPart
midr_ampere = at 0xac3 (codes "Ampere-1") ∷ at 0xac4 (codes "Ampere-1a") ∷ []

abbrev pub midr_fujitsu : List MidrPart
midr_fujitsu = at 0x001 (codes "A64FX") ∷ at 0x003 (codes "MONAKA") ∷ []

abbrev pub midr_phytium : List MidrPart
midr_phytium =
    at 0x303 (codes "FTC310")
    ∷ at 0x660 (codes "FTC660")
    ∷ at 0x661 (codes "FTC661")
    ∷ at 0x662 (codes "FTC662")
    ∷ at 0x663 (codes "FTC663")
    ∷ at 0x664 (codes "FTC664")
    ∷ at 0x862 (codes "FTC862")
    ∷ []

abbrev pub midr_apm : List MidrPart
midr_apm = at 0x000 (codes "X-Gene") ∷ []

abbrev pub midr_ms : List MidrPart
midr_ms = at 0xd49 (codes "Azure-Cobalt-100") ∷ []

abbrev pub midr_brcm : List MidrPart
midr_brcm = at 0x100 (codes "Brahma-B53") ∷ at 0x516 (codes "ThunderX2") ∷ []

abbrev pub midr_impls : List MidrImpl
midr_impls =
    record { impl = 0x41; vendor = codes "Arm"; parts = midr_arm }
    ∷ record { impl = 0x42; vendor = codes "Broadcom"; parts = midr_brcm }
    ∷ record { impl = 0x43; vendor = codes "Cavium"; parts = midr_cavium }
    ∷ record { impl = 0x46; vendor = codes "Fujitsu"; parts = midr_fujitsu }
    ∷ record { impl = 0x48; vendor = codes "HiSilicon"; parts = midr_hisi }
    ∷ record { impl = 0x4e; vendor = codes "NVIDIA"; parts = midr_nvidia }
    ∷ record { impl = 0x50; vendor = codes "APM"; parts = midr_apm }
    ∷ record { impl = 0x51; vendor = codes "Qualcomm"; parts = midr_qcom }
    ∷ record { impl = 0x53; vendor = codes "Samsung"; parts = midr_samsung }
    ∷ record { impl = 0x61; vendor = codes "Apple"; parts = midr_apple }
    ∷ record { impl = 0x6d; vendor = codes "Microsoft"; parts = midr_ms }
    ∷ record { impl = 0x70; vendor = codes "Phytium"; parts = midr_phytium }
    ∷ record { impl = 0xc0; vendor = codes "Ampere"; parts = midr_ampere }
    ∷ []

abbrev hex_at : ℕ → ℕ
hex_at n = let d = n % 16 in if ltb d 10 then b'0' + d else b'a' + (d - 10)

-- `%x` of an `unsigned`, which has eight digits at most, with `width` digits at least.
abbrev hex_padded : ℕ → ℕ → ℕ → Bytes → Bytes
hex_padded zero width n out = out
hex_padded (suc fuel) width n out =
    let rest = hex_padded fuel (width - 1) (n / 16) (hex_at n ∷ out) in
    if width == 0 && n == 0 then out else rest

abbrev hex2 : ℕ → Bytes
hex2 n = codes "0x" ++ hex_padded 8 2 n []

abbrev hex3 : ℕ → Bytes
hex3 n = codes "0x" ++ hex_padded 8 3 n []

-- The name of a part that was found: with the vendor, unless the name says it.
unfoldable pub part_text : MidrImpl → MidrPart → Bytes
part_text v p =
    if v.impl == 0x41 || starts_with v.vendor p.name
    then p.name
    else v.vendor ++ (codes " " ++ p.name)

unfoldable pub find_part : MidrImpl → List MidrPart → ℕ → Bytes
unfolding part_text
find_part v [] part = v.vendor ++ (codes " part " ++ hex3 part)
find_part v (p ∷ ps) part =
    let rest = find_part v ps part in if p.part == part then part_text v p else rest

unfoldable pub find_impl : List MidrImpl → ℕ → ℕ → Bytes
unfolding find_part
find_impl [] impl part = codes "impl " ++ (hex2 impl ++ (codes " part " ++ hex3 part))
find_impl (v ∷ vs) impl part =
    let rest = find_impl vs impl part in if v.impl == impl then find_part v v.parts part else rest

-- Into a buffer of `outsz` bytes; `impl` and `part` are of type `unsigned`.
unfoldable pub midr_name : ℕ → ℕ → ℕ → Bytes
unfolding find_impl
midr_name impl part outsz = take (outsz - 1) (find_impl midr_impls impl part)
