-- ===== src/Fat/Fuse/Create.antt =====
-- What `fat_fuse_mkdir` and `fat_fuse_mknod` do where nothing fails.
use operating_system_fa_maf.Fat.Os.{Os}
use operating_system_fa_maf.Fat.Libc.{Libc}
use operating_system_fa_maf.Fat.Table.Chain.{Chain}
use operating_system_fa_maf.Fat.Handle.{Handle}
