-- ===== src/Pide/Message/Tests.antt =====
-- final: runs of the messages.
use cse_344_homeworks.Prelude.{◌≡◌, refl}
use cse_344_homeworks.Prelude.Text.{codes}
use cse_344_homeworks.Prelude.Decimal.{digits}
use cse_344_homeworks.Prelude.Int.{pos, negsuc}
use cse_344_homeworks.Students.Scan.{scan_int, scan_digits, skip_space, split_while}
use cse_344_homeworks.Pide.Queue.{Order}
use cse_344_homeworks.Pide.Message.{order_message, scan_ints, read_order}

abbrev blank : Order
blank = record {
  order_id = pos 0;
  customer_x = pos 0;
  customer_y = pos 0;
  state = 0;
  cook_id = negsuc 0;
  pid = pos 0;
}

one_message : order_message (pos 1) (pos 12) (pos 0) (pos 4711) ≡ codes "1 12 0 4711"
unfolding order_message digits
one_message = refl

-- A message that is cut leaves the last fields as they were.
cut_message :
    read_order (codes "7 30 ") blank ≡ record blank { order_id = pos 7; customer_x = pos 30 }
unfolding read_order scan_ints scan_int scan_digits skip_space split_while
cut_message = refl
