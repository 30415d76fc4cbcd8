-- ===== src/Fec/Tests.antt =====
-- Five words of a frame.
use skyblip.Base.{◌≡◌, arith}
use skyblip.Fec.Scramble.{Words, xxtea_scramble_key0, xxtea_descramble_key0}
use skyblip.Fec.Scramble.Undone.{AreWords, xxtea_descramble-scramble}

abbrev frame_words : Words
frame_words i = 0xc0ffee

frame_words-AreWords : AreWords frame_words
frame_words-AreWords i = omega arith

xxtea_descramble-scramble_example :
    xxtea_descramble_key0 (xxtea_scramble_key0 frame_words 5 6) 5 6 ≡ frame_words
xxtea_descramble-scramble_example =
    xxtea_descramble-scramble frame_words 5 6 (omega arith) frame_words-AreWords
