-- ===== src/Attributes/Tests.antt =====
-- Runs of the attribute conversions of src/caformat-util.c with the bits of Linux, and instances of
-- their theorems.
use casync.Prelude.{◌≡◌, refl, arith, bit_and, bit_or, not64}
use casync.Features.{
  with_chattr, with_fat_attrs, with_best, with_flag_append, with_flag_hidden, feature_flags_max,
}
use casync.Attributes.{
  ChattrBits, FatBits, Magics, from_chattr, to_chattr, from_fat_attrs, to_fat_attrs, from_magic,
  collect,
}
use casync.Attributes.RoundTrip.{IsApart}
use casync.Attributes.Bits.{
  IsChattr, IsFat, from_chattr-to_chattr, from_fat_attrs-to_fat_attrs, from_magic_known,
}

abbrev linux_chattr : ChattrBits
linux_chattr = record {
  append = 32;
  noatime = 128;
  compr = 4;
  nocow = 8388608;
  nodump = 64;
  dirsync = 65536;
  immutable = 16;
  sync = 8;
  nocomp = 1024;
  projinherit = 536870912;
}

abbrev linux_fat : FatBits
linux_fat = record { hidden = 2; system = 4; archive = 32 }

abbrev linux_magics : Magics
linux_magics = record {
  msdos = 19780;
  ext2 = 61267;
  xfs = 1481003842;
  btrfs = 2435016766;
  tmpfs = 16914836;
  fuse = 1702057286;
}

linux_chattr-IsChattr : IsChattr linux_chattr
unfolding IsApart
linux_chattr-IsChattr = record {
  some_bit = (
    omega arith,
    omega arith,
    omega arith,
    omega arith,
    omega arith,
    omega arith,
    omega arith,
    omega arith,
    omega arith,
    omega arith,
  );
  append_apart = (refl, (refl, (refl, (refl, (refl, (refl, (refl, (refl, (refl, tt)))))))));
  noatime_apart = (refl, (refl, (refl, (refl, (refl, (refl, (refl, (refl, tt))))))));
  compr_apart = (refl, (refl, (refl, (refl, (refl, (refl, (refl, tt)))))));
  nocow_apart = (refl, (refl, (refl, (refl, (refl, (refl, tt))))));
  nodump_apart = (refl, (refl, (refl, (refl, (refl, tt)))));
  dirsync_apart = (refl, (refl, (refl, (refl, tt))));
  immutable_apart = (refl, (refl, (refl, tt)));
  sync_apart = (refl, (refl, tt));
  nocomp_apart = (refl, tt);
}

linux_fat-IsFat : IsFat linux_fat
unfolding IsApart
linux_fat-IsFat = record {
  some_bit = (omega arith, omega arith, omega arith);
  hidden_apart = (refl, (refl, tt));
  system_apart = (refl, tt);
}

appended : to_chattr linux_chattr (bit_or with_flag_append with_flag_hidden) ≡ 32
unfolding to_chattr collect
appended = refl

from_chattr-to_chattr_example :
    from_chattr linux_chattr (to_chattr linux_chattr with_best) ≡ bit_and with_best with_chattr
from_chattr-to_chattr_example = from_chattr-to_chattr linux_chattr with_best linux_chattr-IsChattr

from_fat_attrs-to_fat_attrs_example :
    from_fat_attrs linux_fat (to_fat_attrs linux_fat with_best) ≡ bit_and with_best with_fat_attrs
from_fat_attrs-to_fat_attrs_example =
    from_fat_attrs-to_fat_attrs linux_fat with_best linux_fat-IsFat

from_magic_known_example : bit_and (from_magic linux_magics 61267) (not64 feature_flags_max) ≡ 0
from_magic_known_example = from_magic_known linux_magics 61267
