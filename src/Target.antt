-- ===== src/Target.antt =====
-- include/target/core/TargetDescriptor.h: the architectures and operating systems.
use fyra.Prelude.{ℕ, Bool, ◌==◌}

pub data Arch : Type 0 where
  x64 aarch64 riscv64 riscv32 loongarch64 wasm32 bpf spirv : Arch

pub data Os : Type 0 where
  linux windows macos android freebsd wasi baremetal uefi : Os

abbrev arch_index : Arch → ℕ
arch_index x64 = 0
arch_index aarch64 = 1
arch_index riscv64 = 2
arch_index riscv32 = 3
arch_index loongarch64 = 4
arch_index wasm32 = 5
arch_index bpf = 6
arch_index spirv = 7

abbrev os_index : Os → ℕ
os_index linux = 0
os_index windows = 1
os_index macos = 2
os_index android = 3
os_index freebsd = 4
os_index wasi = 5
os_index baremetal = 6
os_index uefi = 7

-- `==` of the enumerations.
abbrev pub same_arch : Arch → Arch → Bool
same_arch a b = arch_index a == arch_index b

abbrev pub same_os : Os → Os → Bool
same_os a b = os_index a == os_index b
