-- ===== src/Kernel/Syscall/Tests.antt =====
-- Calls of a program on the small system.
use hazle_os.Prelude.{◌≡◌, refl, some, pos, neg, arith}
use hazle_os.Fat32.File.{lookup}
use hazle_os.Kernel.Exec.Tests.{small_system}
use hazle_os.Kernel.Syscall.Dispatch.{dispatch}
use hazle_os.Kernel.Syscall.Dispatch.Refused.{dispatch-refused}

dispatch-refused_example :
    (dispatch (λ c row. 0) 9 9 25 3 64 512 small_system ≡ some (neg 1, small_system))
    × (dispatch (λ c row. 0) 9 9 1 3 64 512 small_system ≡ some (neg 1, small_system))
    × (dispatch (λ c row. 0) 9 9 2 3 64 512 small_system ≡ some (neg 1, small_system))
    × (dispatch (λ c row. 0) 9 9 4 3 64 512 small_system ≡ some (pos 0, small_system))
unfolding lookup
dispatch-refused_example =
    dispatch-refused (λ c row. 0) 9 9 25 3 64 512 small_system (omega arith) (omega arith) refl
