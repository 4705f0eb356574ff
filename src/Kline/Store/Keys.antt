-- ===== src/Kline/Store/Keys.antt =====
-- keyFor tells every two symbol-interval pairs apart, if the intervals hold no colon.
use fidorix.Base.{◌≡◌, Text, Lacks, split_unique}
use fidorix.Kline.Store.{key_for}

-- Two pairs whose intervals hold no colon have one key only if they are the same pair.
pub key_for_inj :
    (s t i j : Text) → Lacks b':' i → Lacks b':' j → key_for s i ≡ key_for t j → (s ≡ t) × (i ≡ j)
unfolding key_for
key_for_inj s t i j = split_unique b':' s t i j
