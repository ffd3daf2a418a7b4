-- ===== src/Tests/Dumped.antt =====
-- A device that has only the newer interface.
use hwcpipe.Common.{◌≡◌, refl, ◌∷◌, some, [], arith, replicate, length}
use hwcpipe.Common.Int.{ℤ, pos, negsuc}
use hwcpipe.Names.Products.{find_product, tmix}
use hwcpipe.Mali.GpuProps.{GpuProps, zero_props, store_property}
use hwcpipe.Mali.GpuProps.Encode.{encode, store_all}
use hwcpipe.Mali.HwInfo.{get_mali_hw_info}
use hwcpipe.Mali.HwInfo.Dumped.{Dumps}
use hwcpipe.Mali.HwInfo.Reported.{Reports, get_mali_hw_info-Reports}
use hwcpipe.Mali.Init.Starts.{Surely}
use hwcpipe.Mali.Counter.Usable.{Serves, Samples}
use hwcpipe.Mali.Counter.Lifetime.{Lived, dumped_lifetime}
use hwcpipe.Mali.Kernel.{
  Kernel, Request, Out, uk_check_version, check_version, uk_set_flags, set_flags, uk_gpu_props,
  get_gpuprops, uk_reader_setup, reader_setup, get_api_version, get_buffer_size, get_hwver, dump,
  get_buffer, put_buffer,
}
use hwcpipe.Tests.{device, written, new_machine}
use hwcpipe.Tests.Mali.{properties, properties-IsValid}

abbrev answer : Request → ℤ
answer (uk_check_version major minor) = negsuc 0
answer (uk_set_flags flags) = negsuc 0
answer uk_gpu_props = negsuc 0
answer (uk_reader_setup n jm shader tiler mmu) = negsuc 0
answer (get_gpuprops size) = pos (length (encode properties))
answer (check_version major minor) = pos 0
answer (set_flags flags) = pos 0
answer (reader_setup n jm shader tiler mmu) = pos 4
answer (get_api_version version) = pos 0
answer get_buffer_size = pos 0
answer get_hwver = pos 0
answer dump = pos 0
answer get_buffer = pos 0
answer (put_buffer meta) = pos 0

abbrev dumped : (r : Request) → Out r
dumped (get_gpuprops size) = encode properties
dumped r = written r

abbrev newer_device : Kernel
newer_device = record device {
  ioctl = λ h fd r. record { ret = answer r; header_ret = 0; out = dumped r };
}

newer_device-Dumps : Dumps newer_device properties
newer_device-Dumps = record {
  opens = λ h. refl;
  maps = λ h. refl;
  no_uk_version = λ h fd a b. refl;
  no_uk_flags = λ h fd. refl;
  no_uk_props = λ h fd. refl;
  no_uk_reader = λ h fd n a b c d. refl;
  version = λ h fd. refl;
  flags = λ h fd. refl;
  reader = λ h fd n a b c d. refl;
  readable = record {
    api_ret = λ h fd n. refl;
    api = λ h fd n. refl;
    size_ret = λ h fd. refl;
    hw_ret = λ h fd. refl;
    hw_ver = λ h fd. omega arith;
  };
  size = λ h fd n. refl;
  bytes = λ h fd. refl;
}

abbrev dumped_props : GpuProps
dumped_props = record zero_props {
  product_id = 0x6000;
  num_core_groups = 1;
  l2_slices = 2;
  core_mask = 11 ∷ replicate 15 0;
}

properties_stored : store_all properties zero_props ≡ some dumped_props
unfolding store_property
properties_stored = refl

tmix_found : find_product 0x6000 ≡ some tmix
unfolding find_product
tmix_found = refl

get_mali_hw_info-Reports_example :
    Surely (λ i _. Reports 3 properties i) (get_mali_hw_info newer_device new_machine)
get_mali_hw_info-Reports_example =
    get_mali_hw_info-Reports newer_device properties 3 new_machine newer_device-Dumps
      properties-IsValid (omega arith) (omega arith)

newer_device-Serves : Serves newer_device
newer_device-Serves = record {
  dumps = λ h fd. refl;
  hands_out = λ h fd. refl;
  takes_back = λ h fd m. refl;
}

newer_device-Samples : Samples newer_device
newer_device-Samples = record {
  polls = λ h. refl;
  reports = λ h. refl;
  in_range = λ h fd. omega arith;
}

dumped_lifetime_example : Lived newer_device tmix 2 []
dumped_lifetime_example =
    dumped_lifetime newer_device properties dumped_props tmix 512 [] newer_device-Dumps
      newer_device-Serves newer_device-Samples (λ h fd. refl) properties-IsValid properties_stored
      (omega arith) tmix_found (λ e. absurd (omega (arith, e))) (omega arith) (omega arith)
