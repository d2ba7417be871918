-- ===== src/Tests/Machine.antt =====
-- Machine.cpp at concrete requests.
use project.Prelude.{ℕ, ◌+◌, ◌≡◌, refl, Option, none, some, List, [], ◌∷◌, ◌++◌, arith, length}
use project.Machine.Data.{
  request_open, request_read, request_write, request_seek, request_close, machine_file_io_callback,
  FileCallback,
}
use project.Machine.Codec.{set_int, get_int, get_int-set_int}
use project.Machine.Requests.{file_open, file_read, file_write, file_seek, file_close, read_bytes}
use project.Machine.Server.{Os, add_read, answered}
use project.Machine.RoundTrip.{
  Served, file_open-Served, file_read-Served, file_write-Served, file_seek-Served,
  file_close-Served,
}
use project.Tests.Store.{machine}

-- An operating system whose world counts the calls.
abbrev pub counting : Os ℕ
counting = record {
  open_file = λ name flags mode w. (w + 1, 3);
  write_file = λ fd bytes w. (w + 1, length bytes);
  seek_file = λ fd offset whence w. (w + 1, offset);
  close_file = λ fd w. (w + 1, 0);
  read_file = λ fd size w. (w + 1, some (104 ∷ 105 ∷ []));
}

abbrev callback : Option FileCallback
callback = some machine_file_io_callback

abbrev thread : Option ℕ
thread = some 2

abbrev name : List ℕ
name = 97 ∷ 98 ∷ []

file_open-Served_example :
    Served callback thread machine counting request_open none
      (file_open name 2 420 callback thread machine)
      (λ message v w. some (answered counting message v (counting.open_file name 2 420 w)))
file_open-Served_example =
    file_open-Served callback thread machine counting refl name 2 420
      ((λ e. ground (arith, e)), ((λ e. ground (arith, e)), tt)) (omega arith) (omega arith)
      (omega arith)

file_read-Served_example :
    Served callback thread machine counting request_read
      (some 4096)
      (file_read 3 4096 2 callback thread machine)
      (λ message v w. some (
        w,
        add_read (record { request_id = message.request_id; file_descriptor = 3; size = 2 }) v,
        [],
      ))
file_read-Served_example =
    file_read-Served callback thread machine counting refl 3 4096 2 (omega arith) (omega arith)

file_write-Served_example :
    Served callback thread machine counting request_write none
      (file_write 3 4096 2 callback thread machine)
      (λ message v w.
        some (
          answered counting message v (counting.write_file 3 (read_bytes 2 4096 machine.memory) w)))
file_write-Served_example =
    file_write-Served callback thread machine counting refl 3 4096 2 (omega arith) (omega arith)

file_seek-Served_example :
    Served callback thread machine counting request_seek none
      (file_seek 3 10 0 callback thread machine)
      (λ message v w. some (answered counting message v (counting.seek_file 3 10 0 w)))
file_seek-Served_example =
    file_seek-Served callback thread machine counting refl 3 10 0 (omega arith) (omega arith)
      (omega arith)

file_close-Served_example :
    Served callback thread machine counting request_close none
      (file_close 3 callback thread machine)
      (λ message v w. some (answered counting message v (counting.close_file 3 w)))
file_close-Served_example = file_close-Served callback thread machine counting refl 3 (omega arith)

get_int-set_int_example : get_int (set_int 305419896 ++ 7 ∷ []) ≡ some 305419896
get_int-set_int_example = get_int-set_int 305419896 (7 ∷ []) (omega arith)
