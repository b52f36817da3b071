-- ===== src/Store/Futures.antt =====
-- ActiveBSP/src/future/LazyFutureDataStore.cpp and FutureKeyManager.cpp: the futures that a process
-- owns, by key, and the keys that it gives out.
use activebsp.Base.{ℕ, Option, Map, assign, insert_new, erase, int_add}
use activebsp.Store.DataStore.{Bytes}

-- `_store`.
abbrev pub FutureStore : Type 0
FutureStore = Map Bytes

-- `registerFutureData(key, const std::vector<char> &)`.
unfoldable pub register_future_data : FutureStore → ℕ → Bytes → FutureStore
register_future_data store key bytes = assign key bytes store

-- `registerFutureData(key, std::vector<char> &&)`, which keeps an entry that is there.
unfoldable pub emplace_future_data : FutureStore → ℕ → Bytes → FutureStore
emplace_future_data store key bytes = insert_new key bytes store

-- `getFutureData`.
unfoldable pub find_future_data : FutureStore → ℕ → Option Bytes
find_future_data store key = store key

-- `removeFutureData`: an unknown key is reported and changes nothing.
unfoldable pub remove_future_data : FutureStore → ℕ → FutureStore
remove_future_data store key = erase key store

-- `FutureKeyManager::takeKey`, on `_next`: the key, and the next one.
unfoldable pub take_key : ℕ → ℕ × ℕ
take_key next = (next, int_add next 1)
