-- ===== src/LuaExt/Echo/Tests.antt =====
-- Output of which the last part does not fit into the last buffer.
use alilua.Prelude.{◌≡◌, refl, true, none, some, [], ◌∷◌, codes, update}
use alilua.Prelude.Int.{negsuc}
use alilua.Network.Epd.{Epd, idle}
use alilua.Network.Send.{
  first_buffer, current_buffer, fitting, fill, next_buffer, send_into, network_send,
}
use alilua.Network.Send.Whole.{always}
use alilua.ServStatus.{ServStatus}
use alilua.Network.Build.{Site}
use alilua.LuaExt.Echo.{begin_echo, keep_rest, after_send, echo_one, echo_all}
use alilua.Samples.{one_connection, sample_site}

abbrev site : Site
site = sample_site 12

abbrev counters : ServStatus
counters = one_connection

abbrev nearly_full : Epd
nearly_full = record idle {
  iov = update (update (λ i. none) 1 (some (codes "ab"))) 236 (some (codes "0123456789"));
  iov_buf_count = 236;
  response_content_length = 12;
}

yzw_waits :
    (echo_all 12 always true (begin_echo nearly_full) (codes "x" ∷ codes "yzw" ∷ [])).next_out
    ≡ some (codes "zw")
unfolding echo_all echo_one after_send keep_rest network_send send_into first_buffer current_buffer
    fitting fill next_buffer
yzw_waits = refl

-- An empty last argument makes -1 the result, which is kept as the length of what waits.
empty_last :
    (echo_all 12 always true (begin_echo nearly_full) (codes "xyzw" ∷ [] ∷ [])).have ≡ negsuc 0
unfolding echo_all echo_one after_send keep_rest network_send send_into first_buffer current_buffer
    fitting fill next_buffer
empty_last = refl
