-- ===== src/ByteRange/Tests.antt =====
-- Headers of the media endpoint.
use whaloc.Base.{some, none, ◌≡◌, refl, arith}
use whaloc.ByteRange.{range, whole, select_range, parse_byte_range}
use whaloc.ByteRange.Bounds.{IsInside, serves, asks, parse_byte_range-IsInside, serves-select_range}

tail : parse_byte_range (some "bytes=-500") 100 ≡ range 0 99
unfolding parse_byte_range select_range
tail = refl

many : parse_byte_range (some "bytes=0-1,5-6") 100 ≡ whole
unfolding parse_byte_range select_range
many = refl

parse_byte_range-IsInside_example : IsInside (parse_byte_range (some "bytes=10-400") 100) 100
parse_byte_range-IsInside_example = parse_byte_range-IsInside (some "bytes=10-400") 100

serves-select_range_example :
    serves (select_range none (some 30) 100) 70 ≡ asks none (some 30) 100 70
serves-select_range_example = serves-select_range none (some 30) 100 70 (omega arith)
