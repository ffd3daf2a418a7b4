-- ===== src/Names/T76x.antt =====
-- hwc_names.hpp: the counter names of the T76x GPUs, 64 for each of the four blocks in the order of
-- their memory layout. An empty name is a hole in the block.
use hwcpipe.Common.{String, List, [], ◌∷◌, ◌++◌}

abbrev pub job_manager : List String
job_manager =
    "" ∷ "" ∷ "" ∷ "" ∷ "T76x_MESSAGES_SENT" ∷ "T76x_MESSAGES_RECEIVED" ∷ "T76x_GPU_ACTIVE"
    ∷ "T76x_IRQ_ACTIVE" ∷ "T76x_JS0_JOBS" ∷ "T76x_JS0_TASKS" ∷ "T76x_JS0_ACTIVE" ∷ ""
    ∷ "T76x_JS0_WAIT_READ" ∷ "T76x_JS0_WAIT_ISSUE" ∷ "T76x_JS0_WAIT_DEPEND" ∷ "T76x_JS0_WAIT_FINISH"
    ∷ "T76x_JS1_JOBS" ∷ "T76x_JS1_TASKS" ∷ "T76x_JS1_ACTIVE" ∷ "" ∷ "T76x_JS1_WAIT_READ"
    ∷ "T76x_JS1_WAIT_ISSUE" ∷ "T76x_JS1_WAIT_DEPEND" ∷ "T76x_JS1_WAIT_FINISH" ∷ "T76x_JS2_JOBS"
    ∷ "T76x_JS2_TASKS" ∷ "T76x_JS2_ACTIVE" ∷ "" ∷ "T76x_JS2_WAIT_READ" ∷ "T76x_JS2_WAIT_ISSUE"
    ∷ "T76x_JS2_WAIT_DEPEND" ∷ "T76x_JS2_WAIT_FINISH" ∷ "" ∷ "" ∷ "" ∷ "" ∷ "" ∷ "" ∷ "" ∷ "" ∷ ""
    ∷ "" ∷ "" ∷ "" ∷ "" ∷ "" ∷ "" ∷ "" ∷ "" ∷ "" ∷ "" ∷ "" ∷ "" ∷ "" ∷ "" ∷ "" ∷ "" ∷ "" ∷ "" ∷ ""
    ∷ "" ∷ "" ∷ "" ∷ "" ∷ []

abbrev pub tiler : List String
tiler =
    "" ∷ "" ∷ "" ∷ "T76x_TI_JOBS_PROCESSED" ∷ "T76x_TI_TRIANGLES" ∷ "T76x_TI_QUADS"
    ∷ "T76x_TI_POLYGONS" ∷ "T76x_TI_POINTS" ∷ "T76x_TI_LINES" ∷ "T76x_TI_VCACHE_HIT"
    ∷ "T76x_TI_VCACHE_MISS" ∷ "T76x_TI_FRONT_FACING" ∷ "T76x_TI_BACK_FACING"
    ∷ "T76x_TI_PRIM_VISIBLE" ∷ "T76x_TI_PRIM_CULLED" ∷ "T76x_TI_PRIM_CLIPPED" ∷ "T76x_TI_LEVEL0"
    ∷ "T76x_TI_LEVEL1" ∷ "T76x_TI_LEVEL2" ∷ "T76x_TI_LEVEL3" ∷ "T76x_TI_LEVEL4" ∷ "T76x_TI_LEVEL5"
    ∷ "T76x_TI_LEVEL6" ∷ "T76x_TI_LEVEL7" ∷ "T76x_TI_COMMAND_1" ∷ "T76x_TI_COMMAND_2"
    ∷ "T76x_TI_COMMAND_3" ∷ "T76x_TI_COMMAND_4" ∷ "T76x_TI_COMMAND_5_7" ∷ "T76x_TI_COMMAND_8_15"
    ∷ "T76x_TI_COMMAND_16_63" ∷ "T76x_TI_COMMAND_64" ∷ "T76x_TI_COMPRESS_IN"
    ∷ "T76x_TI_COMPRESS_OUT" ∷ "T76x_TI_COMPRESS_FLUSH" ∷ "T76x_TI_TIMESTAMPS"
    ∷ "T76x_TI_PCACHE_HIT" ∷ "T76x_TI_PCACHE_MISS" ∷ "T76x_TI_PCACHE_LINE" ∷ "T76x_TI_PCACHE_STALL"
    ∷ "T76x_TI_WRBUF_HIT" ∷ "T76x_TI_WRBUF_MISS" ∷ "T76x_TI_WRBUF_LINE" ∷ "T76x_TI_WRBUF_PARTIAL"
    ∷ "T76x_TI_WRBUF_STALL" ∷ "T76x_TI_ACTIVE" ∷ "T76x_TI_LOADING_DESC" ∷ "T76x_TI_INDEX_WAIT"
    ∷ "T76x_TI_INDEX_RANGE_WAIT" ∷ "T76x_TI_VERTEX_WAIT" ∷ "T76x_TI_PCACHE_WAIT"
    ∷ "T76x_TI_WRBUF_WAIT" ∷ "T76x_TI_BUS_READ" ∷ "T76x_TI_BUS_WRITE" ∷ "" ∷ "" ∷ "" ∷ "" ∷ ""
    ∷ "T76x_TI_UTLB_HIT" ∷ "T76x_TI_UTLB_NEW_MISS" ∷ "T76x_TI_UTLB_REPLAY_FULL"
    ∷ "T76x_TI_UTLB_REPLAY_MISS" ∷ "T76x_TI_UTLB_STALL" ∷ []

abbrev pub shader : List String
shader =
    "" ∷ "" ∷ "" ∷ "" ∷ "T76x_FRAG_ACTIVE" ∷ "T76x_FRAG_PRIMITIVES" ∷ "T76x_FRAG_PRIMITIVES_DROPPED"
    ∷ "T76x_FRAG_CYCLES_DESC" ∷ "T76x_FRAG_CYCLES_FPKQ_ACTIVE" ∷ "T76x_FRAG_CYCLES_VERT"
    ∷ "T76x_FRAG_CYCLES_TRISETUP" ∷ "T76x_FRAG_CYCLES_EZS_ACTIVE" ∷ "T76x_FRAG_THREADS"
    ∷ "T76x_FRAG_DUMMY_THREADS" ∷ "T76x_FRAG_QUADS_RAST" ∷ "T76x_FRAG_QUADS_EZS_TEST"
    ∷ "T76x_FRAG_QUADS_EZS_KILLED" ∷ "T76x_FRAG_THREADS_LZS_TEST" ∷ "T76x_FRAG_THREADS_LZS_KILLED"
    ∷ "T76x_FRAG_CYCLES_NO_TILE" ∷ "T76x_FRAG_NUM_TILES" ∷ "T76x_FRAG_TRANS_ELIM"
    ∷ "T76x_COMPUTE_ACTIVE" ∷ "T76x_COMPUTE_TASKS" ∷ "T76x_COMPUTE_THREADS"
    ∷ "T76x_COMPUTE_CYCLES_DESC" ∷ "T76x_TRIPIPE_ACTIVE" ∷ "T76x_ARITH_WORDS"
    ∷ "T76x_ARITH_CYCLES_REG" ∷ "T76x_ARITH_CYCLES_L0" ∷ "T76x_ARITH_FRAG_DEPEND" ∷ "T76x_LS_WORDS"
    ∷ "T76x_LS_ISSUES" ∷ "T76x_LS_REISSUE_ATTR" ∷ "T76x_LS_REISSUES_VARY" ∷ "T76x_LS_VARY_RV_MISS"
    ∷ "T76x_LS_VARY_RV_HIT" ∷ "T76x_LS_NO_UNPARK" ∷ "T76x_TEX_WORDS" ∷ "T76x_TEX_BUBBLES"
    ∷ "T76x_TEX_WORDS_L0" ∷ "T76x_TEX_WORDS_DESC" ∷ "T76x_TEX_ISSUES" ∷ "T76x_TEX_RECIRC_FMISS"
    ∷ "T76x_TEX_RECIRC_DESC" ∷ "T76x_TEX_RECIRC_MULTI" ∷ "T76x_TEX_RECIRC_PMISS"
    ∷ "T76x_TEX_RECIRC_CONF" ∷ "T76x_LSC_READ_HITS" ∷ "T76x_LSC_READ_OP" ∷ "T76x_LSC_WRITE_HITS"
    ∷ "T76x_LSC_WRITE_OP" ∷ "T76x_LSC_ATOMIC_HITS" ∷ "T76x_LSC_ATOMIC_OP" ∷ "T76x_LSC_LINE_FETCHES"
    ∷ "T76x_LSC_DIRTY_LINE" ∷ "T76x_LSC_SNOOPS" ∷ "T76x_AXI_TLB_STALL" ∷ "T76x_AXI_TLB_MISS"
    ∷ "T76x_AXI_TLB_TRANSACTION" ∷ "T76x_LS_TLB_MISS" ∷ "T76x_LS_TLB_HIT" ∷ "T76x_AXI_BEATS_READ"
    ∷ "T76x_AXI_BEATS_WRITTEN" ∷ []

abbrev pub memory_system : List String
memory_system =
    "" ∷ "" ∷ "" ∷ "" ∷ "T76x_MMU_HIT" ∷ "T76x_MMU_NEW_MISS" ∷ "T76x_MMU_REPLAY_FULL"
    ∷ "T76x_MMU_REPLAY_MISS" ∷ "T76x_MMU_TABLE_WALK" ∷ "T76x_MMU_REQUESTS" ∷ "" ∷ ""
    ∷ "T76x_UTLB_HIT" ∷ "T76x_UTLB_NEW_MISS" ∷ "T76x_UTLB_REPLAY_FULL" ∷ "T76x_UTLB_REPLAY_MISS"
    ∷ "T76x_UTLB_STALL" ∷ "" ∷ "" ∷ "" ∷ "" ∷ "" ∷ "" ∷ "" ∷ "" ∷ "" ∷ "" ∷ "" ∷ "" ∷ ""
    ∷ "T76x_L2_EXT_WRITE_BEATS" ∷ "T76x_L2_EXT_READ_BEATS" ∷ "T76x_L2_ANY_LOOKUP"
    ∷ "T76x_L2_READ_LOOKUP" ∷ "T76x_L2_SREAD_LOOKUP" ∷ "T76x_L2_READ_REPLAY" ∷ "T76x_L2_READ_SNOOP"
    ∷ "T76x_L2_READ_HIT" ∷ "T76x_L2_CLEAN_MISS" ∷ "T76x_L2_WRITE_LOOKUP" ∷ "T76x_L2_SWRITE_LOOKUP"
    ∷ "T76x_L2_WRITE_REPLAY" ∷ "T76x_L2_WRITE_SNOOP" ∷ "T76x_L2_WRITE_HIT" ∷ "T76x_L2_EXT_READ_FULL"
    ∷ "" ∷ "T76x_L2_EXT_WRITE_FULL" ∷ "T76x_L2_EXT_R_W_HAZARD" ∷ "T76x_L2_EXT_READ"
    ∷ "T76x_L2_EXT_READ_LINE" ∷ "T76x_L2_EXT_WRITE" ∷ "T76x_L2_EXT_WRITE_LINE"
    ∷ "T76x_L2_EXT_WRITE_SMALL" ∷ "T76x_L2_EXT_BARRIER" ∷ "T76x_L2_EXT_AR_STALL"
    ∷ "T76x_L2_EXT_R_BUF_FULL" ∷ "T76x_L2_EXT_RD_BUF_FULL" ∷ "T76x_L2_EXT_R_RAW"
    ∷ "T76x_L2_EXT_W_STALL" ∷ "T76x_L2_EXT_W_BUF_FULL" ∷ "T76x_L2_EXT_R_BUF_FULL"
    ∷ "T76x_L2_TAG_HAZARD" ∷ "T76x_L2_SNOOP_FULL" ∷ "T76x_L2_REPLAY_FULL" ∷ []

unfoldable pub hardware_counters : List String
hardware_counters = job_manager ++ (tiler ++ (shader ++ memory_system))
