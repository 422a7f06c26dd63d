-- ===== src/Frame/Tests.antt =====
-- The theorems about frames at concrete inputs.
use mathlib.Core.List.{flatten}
use lan_secure_file_system.Common.{◌≡◌, refl, List, [], ◌∷◌, true, false, ◌++◌, ◌⊎◌}
use lan_secure_file_system.Frame.{
  Bytes, ok, encode, receive_all, opened, process_buffer, extract_frame, incomplete,
}
use lan_secure_file_system.Frame.Buffer.{process_buffer_finishes}
use lan_secure_file_system.Frame.Stream.{receive_all-flatten, receive_all-Sends}

abbrev hello : Bytes
hello = 104 ∷ 105 ∷ []

abbrev hello_frame : Bytes
hello_frame = 0 ∷ 0 ∷ 0 ∷ 2 ∷ 104 ∷ 105 ∷ []

encode-hello : encode hello ≡ ok hello_frame
unfolding encode
encode-hello = refl

-- Two frames that arrive in reads of one, seven and four bytes.
abbrev reads : List Bytes
reads = (0 ∷ []) ∷ (0 ∷ 0 ∷ 2 ∷ 104 ∷ 105 ∷ 0 ∷ 0 ∷ []) ∷ (0 ∷ 2 ∷ 104 ∷ 105 ∷ []) ∷ []

receive_all-flatten_example :
    receive_all opened reads ≡ receive_all opened ((hello_frame ++ hello_frame) ∷ [])
receive_all-flatten_example =
    receive_all-flatten reads ((hello_frame ++ hello_frame) ∷ []) (unfold flatten in refl)

receive_all-Sends_example :
    receive_all opened reads ≡ record { frames = hello ∷ hello ∷ []; buffer = []; closed = false }
receive_all-Sends_example = receive_all-Sends (hello ∷ hello ∷ []) reads (
  hello_frame,
  hello_frame,
  encode-hello,
  (unfold flatten in refl),
  (hello_frame, [], encode-hello, refl, refl),
)

process_buffer_finishes_example :
    ((process_buffer (hello_frame ++ 0 ∷ [])).closed ≡ true)
    ⊎ (extract_frame (process_buffer (hello_frame ++ 0 ∷ [])).buffer ≡ incomplete)
process_buffer_finishes_example = process_buffer_finishes (hello_frame ++ 0 ∷ [])
