-- ===== src/Wire/Op.antt =====
-- internal/wire/wire.go: the texts that the program uses as the `Op` of a frame.
use zmqcat.Base.{Text, codes}

abbrev pub hello_op : Text
hello_op = codes "hello"

abbrev pub put_op : Text
put_op = codes "put"

abbrev pub take_op : Text
take_op = codes "take"

abbrev pub pub_op : Text
pub_op = codes "pub"

abbrev pub sub_op : Text
sub_op = codes "sub"

abbrev pub unsub_op : Text
unsub_op = codes "unsub"

abbrev pub ok_op : Text
ok_op = codes "ok"

abbrev pub err_op : Text
err_op = codes "err"

abbrev pub msg_op : Text
msg_op = codes "msg"

abbrev pub ping_op : Text
ping_op = codes "ping"

abbrev pub pong_op : Text
pong_op = codes "pong"

abbrev pub reserve_op : Text
reserve_op = codes "reserve"

abbrev pub ack_op : Text
ack_op = codes "ack"

abbrev pub nack_op : Text
nack_op = codes "nack"

abbrev pub ready_op : Text
ready_op = codes "ready"

abbrev pub req_op : Text
req_op = codes "req"

abbrev pub rep_op : Text
rep_op = codes "rep"
