-- ===== src/Examples/AsyncDefines.antt =====
-- A GNU compiler on a POSIX system, without flags.
use lua_mtint.Base.{false, true, arith}
use lua_mtint.AsyncDefines.{Flags, Compiler, Selects}
use lua_mtint.AsyncDefines.Select.{async_defines_lem}

abbrev no_flags : Flags
no_flags = record {
  use_win32 = false;
  use_stdatomic = false;
  use_gnu = false;
  use_winthread = false;
  use_pthread = false;
  use_stdthread = false;
}

abbrev gcc : Compiler
gcc = record {
  windows = false;
  gnuc = true;
  stdc_version = 201710;
  stdc_no_atomics = false;
  stdc_no_threads = false;
  xopen_version = 700;
}

async_defines_lem_example : Selects gcc no_flags
async_defines_lem_example = async_defines_lem gcc no_flags (omega arith)
