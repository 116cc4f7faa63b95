-- ===== src/Http/Direct.antt =====
-- services/http/http.go: what a target that is dialed without a parent gets to read.
use jocasta.Filter.{Filter}
