-- ===== src/Names/T88x.antt =====
-- hwc_names.hpp: the counter names of the T88x GPUs, 64 for each of the four blocks in the order of
-- their memory layout. An empty name is a hole in the block.
use hwcpipe.Common.{String, List, [], ◌∷◌, ◌++◌}

abbrev pub job_manager : List String
job_manager =
    "" ∷ "" ∷ "" ∷ "" ∷ "T88x_MESSAGES_SENT" ∷ "T88x_MESSAGES_RECEIVED" ∷ "T88x_GPU_ACTIVE"
    ∷ "T88x_IRQ_ACTIVE" ∷ "T88x_JS0_JOBS" ∷ "T88x_JS0_TASKS" ∷ "T88x_JS0_ACTIVE" ∷ ""
    ∷ "T88x_JS0_WAIT_READ" ∷ "T88x_JS0_WAIT_ISSUE" ∷ "T88x_JS0_WAIT_DEPEND" ∷ "T88x_JS0_WAIT_FINISH"
    ∷ "T88x_JS1_JOBS" ∷ "T88x_JS1_TASKS" ∷ "T88x_JS1_ACTIVE" ∷ "" ∷ "T88x_JS1_WAIT_READ"
    ∷ "T88x_JS1_WAIT_ISSUE" ∷ "T88x_JS1_WAIT_DEPEND" ∷ "T88x_JS1_WAIT_FINISH" ∷ "T88x_JS2_JOBS"
    ∷ "T88x_JS2_TASKS" ∷ "T88x_JS2_ACTIVE" ∷ "" ∷ "T88x_JS2_WAIT_READ" ∷ "T88x_JS2_WAIT_ISSUE"
    ∷ "T88x_JS2_WAIT_DEPEND" ∷ "T88x_JS2_WAIT_FINISH" ∷ "" ∷ "" ∷ "" ∷ "" ∷ "" ∷ "" ∷ "" ∷ "" ∷ ""
    ∷ "" ∷ "" ∷ "" ∷ "" ∷ "" ∷ "" ∷ "" ∷ "" ∷ "" ∷ "" ∷ "" ∷ "" ∷ "" ∷ "" ∷ "" ∷ "" ∷ "" ∷ "" ∷ ""
    ∷ "" ∷ "" ∷ "" ∷ "" ∷ []

abbrev pub tiler : List String
tiler =
    "" ∷ "" ∷ "" ∷ "T88x_TI_JOBS_PROCESSED" ∷ "T88x_TI_TRIANGLES" ∷ "T88x_TI_QUADS"
    ∷ "T88x_TI_POLYGONS" ∷ "T88x_TI_POINTS" ∷ "T88x_TI_LINES" ∷ "T88x_TI_VCACHE_HIT"
    ∷ "T88x_TI_VCACHE_MISS" ∷ "T88x_TI_FRONT_FACING" ∷ "T88x_TI_BACK_FACING"
    ∷ "T88x_TI_PRIM_VISIBLE" ∷ "T88x_TI_PRIM_CULLED" ∷ "T88x_TI_PRIM_CLIPPED" ∷ "T88x_TI_LEVEL0"
    ∷ "T88x_TI_LEVEL1" ∷ "T88x_TI_LEVEL2" ∷ "T88x_TI_LEVEL3" ∷ "T88x_TI_LEVEL4" ∷ "T88x_TI_LEVEL5"
    ∷ "T88x_TI_LEVEL6" ∷ "T88x_TI_LEVEL7" ∷ "T88x_TI_COMMAND_1" ∷ "T88x_TI_COMMAND_2"
    ∷ "T88x_TI_COMMAND_3" ∷ "T88x_TI_COMMAND_4" ∷ "T88x_TI_COMMAND_5_7" ∷ "T88x_TI_COMMAND_8_15"
    ∷ "T88x_TI_COMMAND_16_63" ∷ "T88x_TI_COMMAND_64" ∷ "T88x_TI_COMPRESS_IN"
    ∷ "T88x_TI_COMPRESS_OUT" ∷ "T88x_TI_COMPRESS_FLUSH" ∷ "T88x_TI_TIMESTAMPS"
    ∷ "T88x_TI_PCACHE_HIT" ∷ "T88x_TI_PCACHE_MISS" ∷ "T88x_TI_PCACHE_LINE" ∷ "T88x_TI_PCACHE_STALL"
    ∷ "T88x_TI_WRBUF_HIT" ∷ "T88x_TI_WRBUF_MISS" ∷ "T88x_TI_WRBUF_LINE" ∷ "T88x_TI_WRBUF_PARTIAL"
    ∷ "T88x_TI_WRBUF_STALL" ∷ "T88x_TI_ACTIVE" ∷ "T88x_TI_LOADING_DESC" ∷ "T88x_TI_INDEX_WAIT"
    ∷ "T88x_TI_INDEX_RANGE_WAIT" ∷ "T88x_TI_VERTEX_WAIT" ∷ "T88x_TI_PCACHE_WAIT"
    ∷ "T88x_TI_WRBUF_WAIT" ∷ "T88x_TI_BUS_READ" ∷ "T88x_TI_BUS_WRITE" ∷ "" ∷ "" ∷ "" ∷ "" ∷ ""
    ∷ "T88x_TI_UTLB_HIT" ∷ "T88x_TI_UTLB_NEW_MISS" ∷ "T88x_TI_UTLB_REPLAY_FULL"
    ∷ "T88x_TI_UTLB_REPLAY_MISS" ∷ "T88x_TI_UTLB_STALL" ∷ []

abbrev pub shader : List String
shader =
    "" ∷ "" ∷ "" ∷ "" ∷ "T88x_FRAG_ACTIVE" ∷ "T88x_FRAG_PRIMITIVES" ∷ "T88x_FRAG_PRIMITIVES_DROPPED"
    ∷ "T88x_FRAG_CYCLES_DESC" ∷ "T88x_FRAG_CYCLES_FPKQ_ACTIVE" ∷ "T88x_FRAG_CYCLES_VERT"
    ∷ "T88x_FRAG_CYCLES_TRISETUP" ∷ "T88x_FRAG_CYCLES_EZS_ACTIVE" ∷ "T88x_FRAG_THREADS"
    ∷ "T88x_FRAG_DUMMY_THREADS" ∷ "T88x_FRAG_QUADS_RAST" ∷ "T88x_FRAG_QUADS_EZS_TEST"
    ∷ "T88x_FRAG_QUADS_EZS_KILLED" ∷ "T88x_FRAG_THREADS_LZS_TEST" ∷ "T88x_FRAG_THREADS_LZS_KILLED"
    ∷ "T88x_FRAG_CYCLES_NO_TILE" ∷ "T88x_FRAG_NUM_TILES" ∷ "T88x_FRAG_TRANS_ELIM"
    ∷ "T88x_COMPUTE_ACTIVE" ∷ "T88x_COMPUTE_TASKS" ∷ "T88x_COMPUTE_THREADS"
    ∷ "T88x_COMPUTE_CYCLES_DESC" ∷ "T88x_TRIPIPE_ACTIVE" ∷ "T88x_ARITH_WORDS"
    ∷ "T88x_ARITH_CYCLES_REG" ∷ "T88x_ARITH_CYCLES_L0" ∷ "T88x_ARITH_FRAG_DEPEND" ∷ "T88x_LS_WORDS"
    ∷ "T88x_LS_ISSUES" ∷ "T88x_LS_REISSUE_ATTR" ∷ "T88x_LS_REISSUES_VARY" ∷ "T88x_LS_VARY_RV_MISS"
    ∷ "T88x_LS_VARY_RV_HIT" ∷ "T88x_LS_NO_UNPARK" ∷ "T88x_TEX_WORDS" ∷ "T88x_TEX_BUBBLES"
    ∷ "T88x_TEX_WORDS_L0" ∷ "T88x_TEX_WORDS_DESC" ∷ "T88x_TEX_ISSUES" ∷ "T88x_TEX_RECIRC_FMISS"
    ∷ "T88x_TEX_RECIRC_DESC" ∷ "T88x_TEX_RECIRC_MULTI" ∷ "T88x_TEX_RECIRC_PMISS"
    ∷ "T88x_TEX_RECIRC_CONF" ∷ "T88x_LSC_READ_HITS" ∷ "T88x_LSC_READ_OP" ∷ "T88x_LSC_WRITE_HITS"
    ∷ "T88x_LSC_WRITE_OP" ∷ "T88x_LSC_ATOMIC_HITS" ∷ "T88x_LSC_ATOMIC_OP" ∷ "T88x_LSC_LINE_FETCHES"
    ∷ "T88x_LSC_DIRTY_LINE" ∷ "T88x_LSC_SNOOPS" ∷ "T88x_AXI_TLB_STALL" ∷ "T88x_AXI_TLB_MISS"
    ∷ "T88x_AXI_TLB_TRANSACTION" ∷ "T88x_LS_TLB_MISS" ∷ "T88x_LS_TLB_HIT" ∷ "T88x_AXI_BEATS_READ"
    ∷ "T88x_AXI_BEATS_WRITTEN" ∷ []

abbrev pub memory_system : List String
memory_system =
    "" ∷ "" ∷ "" ∷ "" ∷ "T88x_MMU_HIT" ∷ "T88x_MMU_NEW_MISS" ∷ "T88x_MMU_REPLAY_FULL"
    ∷ "T88x_MMU_REPLAY_MISS" ∷ "T88x_MMU_TABLE_WALK" ∷ "T88x_MMU_REQUESTS" ∷ "" ∷ ""
    ∷ "T88x_UTLB_HIT" ∷ "T88x_UTLB_NEW_MISS" ∷ "T88x_UTLB_REPLAY_FULL" ∷ "T88x_UTLB_REPLAY_MISS"
    ∷ "T88x_UTLB_STALL" ∷ "" ∷ "" ∷ "" ∷ "" ∷ "" ∷ "" ∷ "" ∷ "" ∷ "" ∷ "" ∷ "" ∷ "" ∷ ""
    ∷ "T88x_L2_EXT_WRITE_BEATS" ∷ "T88x_L2_EXT_READ_BEATS" ∷ "T88x_L2_ANY_LOOKUP"
    ∷ "T88x_L2_READ_LOOKUP" ∷ "T88x_L2_SREAD_LOOKUP" ∷ "T88x_L2_READ_REPLAY" ∷ "T88x_L2_READ_SNOOP"
    ∷ "T88x_L2_READ_HIT" ∷ "T88x_L2_CLEAN_MISS" ∷ "T88x_L2_WRITE_LOOKUP" ∷ "T88x_L2_SWRITE_LOOKUP"
    ∷ "T88x_L2_WRITE_REPLAY" ∷ "T88x_L2_WRITE_SNOOP" ∷ "T88x_L2_WRITE_HIT" ∷ "T88x_L2_EXT_READ_FULL"
    ∷ "" ∷ "T88x_L2_EXT_WRITE_FULL" ∷ "T88x_L2_EXT_R_W_HAZARD" ∷ "T88x_L2_EXT_READ"
    ∷ "T88x_L2_EXT_READ_LINE" ∷ "T88x_L2_EXT_WRITE" ∷ "T88x_L2_EXT_WRITE_LINE"
    ∷ "T88x_L2_EXT_WRITE_SMALL" ∷ "T88x_L2_EXT_BARRIER" ∷ "T88x_L2_EXT_AR_STALL"
    ∷ "T88x_L2_EXT_R_BUF_FULL" ∷ "T88x_L2_EXT_RD_BUF_FULL" ∷ "T88x_L2_EXT_R_RAW"
    ∷ "T88x_L2_EXT_W_STALL" ∷ "T88x_L2_EXT_W_BUF_FULL" ∷ "T88x_L2_EXT_R_BUF_FULL"
    ∷ "T88x_L2_TAG_HAZARD" ∷ "T88x_L2_SNOOP_FULL" ∷ "T88x_L2_REPLAY_FULL" ∷ []

unfoldable pub hardware_counters : List String
hardware_counters = job_manager ++ (tiler ++ (shader ++ memory_system))
