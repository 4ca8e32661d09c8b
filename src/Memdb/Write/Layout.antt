-- ===== src/Memdb/Write/Layout.antt =====
-- src/memdb/write.rs: the bytes of the records that `MemDbBuilder::write` puts into the file. The
-- padding of the header, which Rust leaves open, is zero.
use symbolserver.Prelude.{◌++◌, [], ◌∷◌}
use symbolserver.Bytes.{Bytes, le_bytes}
use symbolserver.Memdb.Types.{PackedSdkInfo, MemDbHeader, StoredSlice, IndexedUuid, IndexItem}

unfoldable pub put_packed : PackedSdkInfo → Bytes
put_packed p =
    p.name
    ++ (le_bytes 2 p.version_major
        ++ (le_bytes 2 p.version_minor ++ (le_bytes 2 p.version_patchlevel ++ p.build)))

unfoldable pub put_header : MemDbHeader → Bytes
put_header h =
    le_bytes 4 h.version
    ++ (put_packed h.sdk_info
        ++ ((0 ∷ 0 ∷ [])
            ++ (le_bytes 4 h.variants_start
                ++ (le_bytes 4 h.variants_count
                    ++ (le_bytes 4 h.uuids_start
                        ++ (le_bytes 4 h.uuids_count
                            ++ (le_bytes 4 h.tagged_object_names_start
                                ++ (le_bytes 4 h.tagged_object_names_end
                                    ++ (le_bytes 4 h.object_names_start
                                        ++ (le_bytes 4 h.object_names_count
                                            ++ (le_bytes 4 h.symbols_start
                                                ++ le_bytes 4 h.symbols_count)))))))))))

unfoldable pub put_slice : StoredSlice → Bytes
put_slice s = le_bytes 4 s.offset ++ le_bytes 4 s.len

unfoldable pub put_uuid : IndexedUuid → Bytes
put_uuid u = u.uuid ++ le_bytes 2 u.idx

unfoldable pub put_item : IndexItem → Bytes
put_item i =
    le_bytes 4 i.addr_low
    ++ (le_bytes 2 i.addr_high ++ (le_bytes 2 i.src_id ++ le_bytes 4 i.sym_id))
